-- ===== src/AllToAll/Comm/Compressed/Received.antt =====
-- What a rank receives of the compressed buffers, and where.
use distributed_join.Prelude.{
  ℕ, suc, ◌+◌, ◌*◌, ◌<◌, ◌≡◌, refl, sym, ap, ◌∙◌, Bool, true, false, not, ◌&&◌, List, [], arith,
  length, get_or, length-map, if◌then◌else◌, if_false,
}
use distributed_join.Prelude.Ranges.{}
use distributed_join.Prelude.Segments.{offsets_of, diffs, offsets_climb}
use distributed_join.Prelude.Merged.{slice_of_pieces}
use distributed_join.Prelude.Slices.{slice}
use distributed_join.Group.{CommunicationGroup, size, get_global_rank, get_local_idx}
use distributed_join.Group.Collective.{IsCollective}
use distributed_join.Communicator.{Transport}
use distributed_join.Compression.{TypeId, Nvcomp}
use distributed_join.AllToAll.Messages.{Wire, skipped, before, length-before}
use distributed_join.AllToAll.Comm.{AllToAllCommBuffer, left_out, nth}
use distributed_join.AllToAll.Comm.Staged.{staged_items}
use distributed_join.AllToAll.Comm.Compressed
use distributed_join.AllToAll.Comm.Compressed.{IsCompressed}

module _ {A : Type 0} (nvcomp : Nvcomp A) (size_of : TypeId → ℕ) (junk : A) (t : Transport A)
    (mpi : Transport ℕ) (groups : ℕ → CommunicationGroup) (batch include : Bool)
    (buffers : ℕ → List (AllToAllCommBuffer A)) (cs : (k : ℕ) → IsCollective groups k) (all : ℕ)
    (dtypes reps : ℕ → TypeId) (ready : IsCompressed nvcomp size_of junk buffers all dtypes reps)
    (r : ℕ) where
  abbrev n : ℕ
  n = size (groups r)

  abbrev member : ℕ → ℕ
  member i = get_global_rank (groups r) i

  abbrev me : ℕ
  me = get_local_idx (groups r)

  abbrev buffer : ℕ → ℕ → AllToAllCommBuffer A
  buffer k b = nth nvcomp size_of junk (buffers k) b

  abbrev pub staged_at : ℕ → AllToAllCommBuffer A
  staged_at b =
      Compressed.staged_at nvcomp size_of junk t mpi groups batch include buffers cs all dtypes reps
        ready r b

  abbrev pub sizes_for : ℕ → List ℕ
  sizes_for b =
      Compressed.sizes_for nvcomp size_of junk t mpi groups batch include buffers cs all dtypes reps
        ready r b

  abbrev sent_wires : ℕ → ℕ → Wire A
  sent_wires =
      Compressed.wires nvcomp size_of junk t mpi groups batch include buffers cs all dtypes reps
        ready r

  abbrev sent_piece : ℕ → ℕ → List A
  sent_piece =
      Compressed.sent_piece nvcomp size_of junk t mpi groups batch include buffers cs all dtypes
        reps ready r

  abbrev rooms : List (List A)
  rooms =
      Compressed.rooms nvcomp size_of junk t mpi groups batch include buffers cs all dtypes reps
        ready r

  length-rooms : length rooms ≡ all
  length-rooms =
      length-map _ _
      ∙ Compressed.length-prepared nvcomp size_of junk t mpi groups batch include buffers cs all
          dtypes reps ready r

  -- The compressed partitions that a buffer receives.
  abbrev pub sent_items : ℕ → List A
  sent_items b =
      staged_items nvcomp size_of junk t mpi groups batch include buffers r (cs r) all
        (Compressed.prepared nvcomp size_of junk t mpi groups batch include buffers cs all dtypes
          reps ready)
        (Compressed.length-prepared nvcomp size_of junk t mpi groups batch include buffers cs all
          dtypes reps ready)
        (Compressed.staged nvcomp size_of junk t mpi groups batch include buffers cs all dtypes reps
          ready)
        (Compressed.compressed_fits nvcomp size_of junk t mpi groups batch include buffers cs all
          dtypes reps ready r)
        (Compressed.compressed_alike nvcomp size_of junk t mpi groups batch include buffers cs all
          dtypes reps ready r)
        b

  abbrev laid : ℕ → ℕ → List A
  laid b i =
      if skipped t groups batch include all sent_wires r (cs r) i
      then before t groups batch include all sent_wires r (cs r) rooms length-rooms
          (Compressed.compressed_fits nvcomp size_of junk t mpi groups batch include buffers cs all
            dtypes reps ready r)
          (Compressed.compressed_alike nvcomp size_of junk t mpi groups batch include buffers cs all
            dtypes reps ready r)
          b i
      else sent_piece b i

  length-laid :
      (b i : ℕ) → b < all → i < n → length (laid b i) ≡ diffs (offsets_of 0 (sizes_for b)) i
  length-laid b i h q =
      by_skip (skipped t groups batch include all sent_wires r (cs r) i)
      ∙ ap (λ (x : Wire A). diffs x.recv_offsets i * x.item_size)
          (Compressed.wire_is nvcomp size_of junk t mpi groups batch include buffers cs all dtypes
            reps ready r r b h)
      ∙ omega arith
    where
      held : List A
      held =
          before t groups batch include all sent_wires r (cs r) rooms length-rooms
            (Compressed.compressed_fits nvcomp size_of junk t mpi groups batch include buffers cs
              all dtypes reps ready r)
            (Compressed.compressed_alike nvcomp size_of junk t mpi groups batch include buffers cs
              all dtypes reps ready r)
            b i

      by_skip :
          (s : Bool)
          → length (if s then held else sent_piece b i)
            ≡ diffs (sent_wires r b).recv_offsets i * (sent_wires r b).item_size
      by_skip true =
          length-before t groups batch include all sent_wires r (cs r) rooms length-rooms
            (Compressed.compressed_fits nvcomp size_of junk t mpi groups batch include buffers cs
              all dtypes reps ready r)
            (Compressed.compressed_alike nvcomp size_of junk t mpi groups batch include buffers cs
              all dtypes reps ready r)
            b h i q
      by_skip false =
          Compressed.compressed_alike nvcomp size_of junk t mpi groups batch include buffers cs all
            dtypes reps ready r b i h q

  -- The compressed partition of a member, where the offsets that were received say.
  pub sent_at :
      (b i : ℕ)
      → b < all
      → i < n
      → left_out (groups r) r include i ≡ false
      → slice
          (sent_items b)
          (get_or (offsets_of 0 (sizes_for b)) i 0)
          (diffs (offsets_of 0 (sizes_for b)) i)
        ≡ sent_piece b i
  sent_at b i h q takes =
      ap (slice (sent_items b) (off i)) (sym (length-laid b i h q))
      ∙ slice_of_pieces (laid b) off n next n 0 [] (omega arith) refl i (omega arith) q
      ∙ if_false _ _ (ap (λ v. not include && v) (Compressed.==_comm r (member i)) ∙ takes)
    where
      off : ℕ → ℕ
      off k = get_or (offsets_of 0 (sizes_for b)) k 0

      next : (k : ℕ) → k < n → off (suc k) ≡ off k + length (laid b k)
      next k q =
          let e : off (suc k) ≡ off (k + 1) = ap off {x = suc k} (omega arith) in
          omega (
            arith,
            e,
            length-laid b k h q,
            offsets_climb (sizes_for b) k (
                omega (
                  arith,
                  q,
                  Compressed.length-sizes_for nvcomp size_of junk t mpi groups batch include buffers
                      cs all dtypes reps ready r b,
                )),
          )
