-- ===== src/AllToAll/Comm/Compressed.antt =====
-- `all_to_all_comm` where every buffer is compressed: what is staged, and what goes over the wire.
pub mod Received
pub mod Restored
pub mod Same
use distributed_join.Prelude.{
  ℕ, ◌+◌, ◌*◌, ◌<◌, ◌≤◌, ◌≡◌, refl, sym, ap, ap₂, ◌∙◌, Bool, false, not, ◌&&◌, Option, some, List,
  [], map, arith, length, get_or, replicate, ◌>>=◌, length-map, length-replicate, fun_ext, ◌==◌,
  if_false,
}
use distributed_join.Prelude.Ranges.{
  range, each, each-range, length-range, get_or-map-range, get_or-map, map-range_ext,
}
use distributed_join.Prelude.Segments.{
  offsets_of, last_or, diffs, diffs-offsets_of, write_rounds, offsets_climb, offsets_last,
}
use distributed_join.Prelude.Merged.{merged, piece_offsets, length-slice-merged, slice-merged}
use distributed_join.Prelude.Slices.{slice}
use distributed_join.Group.{CommunicationGroup, size, get_global_rank, get_local_idx}
use distributed_join.Group.Collective.{IsCollective}
use distributed_join.Communicator.{Transport}
use distributed_join.Compression.{CompressionMethod, cascaded, TypeId, Nvcomp, cascaded_rep}
use distributed_join.Compression.Functors.{Partition, compress_partition, compression_functor}
use distributed_join.AllToAll.{communicate_sizes}
use distributed_join.AllToAll.Sizes.{counts_for, communicate_sizes_lem}
use distributed_join.AllToAll.Messages.{Wire, Fits, piece}
use distributed_join.AllToAll.Comm.{
  AllToAllCommBuffer, left_out, uncompressed, compress_buffer, to_compress, stage_buffer, wire,
  wire_by, target, target_by, nth, no_buffer, or_else,
}
use distributed_join.AllToAll.Comm.Staged.{staged_wires}

pub ==_comm : (a b : ℕ) → (a == b) ≡ (b == a)
==_comm a b = ground arith

-- Each rank has `all` buffers, which are compressed; buffer `b` has the same type on all ranks.
pub record IsCompressed {A : Type 0} (nvcomp : Nvcomp A) (size_of : TypeId → ℕ) (junk : A)
    (buffers : ℕ → List (AllToAllCommBuffer A)) (all : ℕ) (dtypes reps : ℕ → TypeId) : Type 0 where
  pub same : (k : ℕ) → length (buffers k) ≡ all
  pub methods :
      (k b : ℕ) → b < all → (nth nvcomp size_of junk (buffers k) b).compression_method ≡ cascaded
  pub types : (k b : ℕ) → b < all → (nth nvcomp size_of junk (buffers k) b).dtype ≡ dtypes b
  pub supported : (b : ℕ) → b < all → cascaded_rep (dtypes b) ≡ some (reps b)

module _ {A : Type 0} (nvcomp : Nvcomp A) (size_of : TypeId → ℕ) (junk : A) (t : Transport A)
    (mpi : Transport ℕ) (groups : ℕ → CommunicationGroup) (batch include : Bool)
    (buffers : ℕ → List (AllToAllCommBuffer A)) (cs : (k : ℕ) → IsCollective groups k) (all : ℕ)
    (dtypes reps : ℕ → TypeId)
    (ready : IsCompressed nvcomp size_of junk buffers all dtypes reps) where
  abbrev pub buffer : ℕ → ℕ → AllToAllCommBuffer A
  buffer k b = nth nvcomp size_of junk (buffers k) b

  -- The compressed partitions of a buffer.
  abbrev pub parts : ℕ → ℕ → List (List A)
  parts k b = map (compress_partition nvcomp (reps b) (buffer k b).cascaded_format) (
      map (uncompressed nvcomp size_of junk (groups k) k include (buffer k b))
        (range 0 (size (groups k))))

  pub length-parts : (k b : ℕ) → length (parts k b) ≡ size (groups k)
  length-parts k b = length-map _ _ ∙ length-map _ _ ∙ length-range 0 (size (groups k))

  abbrev pub skips : ℕ → ℕ → Bool
  skips k i = left_out (groups k) k include i

  abbrev pub compressed : ℕ → ℕ → AllToAllCommBuffer A
  compressed k b = record (buffer k b) {
    compressed_send_offsets = piece_offsets (skips k) (parts k b) junk;
    compressed_send_buffer = merged (skips k) (parts k b) junk;
  }

  compress_buffer_is :
      (k b : ℕ)
      → b < all
      → compress_buffer nvcomp size_of junk (groups k) k include (buffer k b)
        ≡ some (compressed k b)
  unfolding compress_buffer compression_functor
  compress_buffer_is k b h =
      ap
        (λ o.
          o
          >>= (λ rep. some (
              map (compress_partition nvcomp rep (buffer k b).cascaded_format) (
                map (uncompressed nvcomp size_of junk (groups k) k include (buffer k b))
                  (range 0 (size (groups k))))))
          >>= laid_out (size (groups k)))
        (ap cascaded_rep (ready.types k b h) ∙ ready.supported b h)
      ∙ ap (λ n. laid_out n (parts k b)) (sym (length-parts k b))
    where
      laid_out : ℕ → List (List A) → Option (AllToAllCommBuffer A)
      laid_out n ps = some (record (buffer k b) {
        compressed_send_offsets = offsets_of 0 (map length ps);
        compressed_send_buffer =
            write_rounds (skips k) (λ i. get_or (offsets_of 0 (map length ps)) i 0)
              (λ i. get_or ps i []) (range 0 n)
              (replicate (last_or (offsets_of 0 (map length ps)) 0) junk);
      })

  -- The sizes of the compressed partitions for a rank, by member.
  abbrev pub sizes_for : ℕ → ℕ → List ℕ
  sizes_for k b = counts_for mpi groups (λ j. (compressed j b).compressed_send_offsets) k (cs k)

  abbrev pub staged_at : ℕ → ℕ → AllToAllCommBuffer A
  staged_at k b = record (compressed k b) {
    compressed_recv_offsets = offsets_of 0 (sizes_for k b);
    compressed_recv_buffer = replicate (last_or (offsets_of 0 (sizes_for k b)) 0) junk;
  }

  stage_buffer_is :
      (k b : ℕ)
      → b < all
      → stage_buffer nvcomp size_of junk mpi groups include (λ j. buffer j b) k
        ≡ some (staged_at k b)
  unfolding stage_buffer
  stage_buffer_is k b h =
      ap
        (λ m. to_compress nvcomp size_of junk m (buffer k b) (
          compress_buffer nvcomp size_of junk (groups k) k include (buffer k b) >>= λ c.
          communicate_sizes mpi groups
            (λ j.
              (or_else (compress_buffer nvcomp size_of junk (groups j) j include (buffer j b))
                (buffer j b)).compressed_send_offsets)
            k
          >>= finish c))
        (ready.methods k b h)
      ∙ ap₂ (λ o (f : ℕ → List ℕ). o >>= λ c. communicate_sizes mpi groups f k >>= finish c)
          (compress_buffer_is k b h)
          (fun_ext λ j.
            ap (λ o. (or_else o (buffer j b)).compressed_send_offsets) (compress_buffer_is j b h))
      ∙ ap (λ o. o >>= finish (compressed k b))
          (communicate_sizes_lem mpi groups (λ j. (compressed j b).compressed_send_offsets) k
            (cs k))
    where
      finish : AllToAllCommBuffer A → List ℕ → Option (AllToAllCommBuffer A)
      finish c recv_offsets = some (record c {
        compressed_recv_offsets = recv_offsets;
        compressed_recv_buffer = replicate (last_or recv_offsets 0) junk;
      })

  abbrev pub prepared : ℕ → List (AllToAllCommBuffer A)
  prepared k = map (staged_at k) (range 0 all)

  pub length-prepared : (k : ℕ) → length (prepared k) ≡ all
  length-prepared k = length-map _ _ ∙ length-range 0 all

  pub staged :
      (k : ℕ)
      → each
          (λ b. stage_buffer nvcomp size_of junk mpi groups include (λ j. buffer j b) k)
          (range 0 (length (buffers k)))
        ≡ some (prepared k)
  staged k =
      ap
        (λ n.
          each (λ b. stage_buffer nvcomp size_of junk mpi groups include (λ j. buffer j b) k)
            (range 0 n))
        (ready.same k)
      ∙ each-range _ (staged_at k) 0 all (λ b _ h. stage_buffer_is k b (omega arith))

  pub nth-prepared : (k b : ℕ) → b < all → nth nvcomp size_of junk (prepared k) b ≡ staged_at k b
  nth-prepared k b h =
      get_or-map-range (staged_at k) (no_buffer nvcomp size_of junk) 0 all b h
      ∙ ap (staged_at k) {x = 0 + b} (omega arith)

  -- What goes over the wire.
  abbrev pub sent : ℕ → ℕ → Wire A
  sent k b = record {
    items = (compressed k b).compressed_send_buffer;
    send_offsets = (compressed k b).compressed_send_offsets;
    recv_offsets = offsets_of 0 (sizes_for k b);
    item_size = 1;
  }

  module _ (r : ℕ) where
    abbrev pub wires : ℕ → ℕ → Wire A
    wires =
        staged_wires nvcomp size_of junk t mpi groups batch include buffers r (cs r) all prepared
          length-prepared staged

    abbrev pub rooms : List (List A)
    rooms = map (target nvcomp size_of junk) (prepared r)

    pub wire_is : (k b : ℕ) → b < all → wires k b ≡ sent k b
    wire_is k b h =
        ap (wire nvcomp size_of junk) (nth-prepared k b h)
        ∙ ap (λ m. wire_by nvcomp size_of junk m (staged_at k b)) (ready.methods k b h)

    room_is : (b : ℕ) → b < all → get_or rooms b [] ≡ (staged_at r b).compressed_recv_buffer
    room_is b h =
        get_or-map (target nvcomp size_of junk) (prepared r) b (no_buffer nvcomp size_of junk) []
          (omega (arith, length-prepared r))
        ∙ ap (target nvcomp size_of junk) (nth-prepared r b h)
        ∙ ap (λ m. target_by nvcomp size_of junk m (staged_at r b)) (ready.methods r b h)

    pub length-sizes_for : (b : ℕ) → length (sizes_for r b) ≡ size (groups r)
    length-sizes_for b = length-map _ _ ∙ length-range 0 (size (groups r))

    pub compressed_fits : (b : ℕ) → b < all → Fits (size (groups r)) (wires r b) (get_or rooms b [])
    compressed_fits b h = record {
      first = ap (λ x. get_or x.recv_offsets 0 0) (wire_is r b h);
      climbs = λ k q.
          let low : get_or (wires r b).recv_offsets k 0
              ≡ get_or (offsets_of 0 (sizes_for r b)) k 0 =
            ap (λ x. get_or x.recv_offsets k 0) (wire_is r b h) in
          let high : get_or (wires r b).recv_offsets (k + 1) 0
              ≡ get_or (offsets_of 0 (sizes_for r b)) (k + 1) 0 =
            ap (λ x. get_or x.recv_offsets (k + 1) 0) (wire_is r b h) in
          omega
            (arith, low, high, offsets_climb (sizes_for r b) k (omega (arith, length-sizes_for b)));
      whole =
          ap length (room_is b h)
          ∙ length-replicate (last_or (offsets_of 0 (sizes_for r b)) 0) junk
          ∙ offsets_last (sizes_for r b)
          ∙ ap (λ n. get_or (offsets_of 0 (sizes_for r b)) n 0) (length-sizes_for b)
          ∙ omega arith
          ∙ ap (λ x. get_or x.recv_offsets (size (groups r)) 0 * x.item_size) (sym (wire_is r b h));
    }

    abbrev member : ℕ → ℕ
    member i = get_global_rank (groups r) i

    abbrev me : ℕ
    me = get_local_idx (groups r)

    -- The piece of member `i`, as it goes over the wire.
    abbrev pub sent_piece : ℕ → ℕ → List A
    sent_piece b i = piece t groups batch include all wires r (cs r) b i

    sent_piece_is :
        (b i : ℕ)
        → b < all
        → sent_piece b i
          ≡ slice
              (merged (skips (member i)) (parts (member i) b) junk)
              (get_or (compressed (member i) b).compressed_send_offsets me 0 * 1)
              (diffs (compressed (member i) b).compressed_send_offsets me * 1)
    sent_piece_is b i h =
        ap
          (λ (x : Wire A).
            slice x.items (get_or x.send_offsets me 0 * x.item_size)
              (diffs x.send_offsets me * x.item_size))
          (wire_is (member i) b h)

    in_parts : (b i : ℕ) → i < size (groups r) → me < length (parts (member i) b)
    in_parts b i q = omega (arith, length-parts (member i) b, (cs r).same_size i q, (cs r).me_in)

    size_is :
        (b i : ℕ)
        → i < size (groups r)
        → diffs (offsets_of 0 (sizes_for r b)) i
          ≡ diffs (compressed (member i) b).compressed_send_offsets me
    size_is b i q =
        diffs-offsets_of 0 (sizes_for r b) i (omega (arith, length-sizes_for b))
        ∙ get_or-map-range (λ i. diffs (compressed (member i) b).compressed_send_offsets me) 0 0
            (size (groups r)) i q
        ∙ ap (λ i. diffs (compressed (member i) b).compressed_send_offsets me) {x = 0 + i}
            (omega arith)

    pub compressed_alike :
        (b i : ℕ)
        → b < all
        → i < size (groups r)
        → length (sent_piece b i) ≡ diffs (wires r b).recv_offsets i * (wires r b).item_size
    compressed_alike b i h q =
        ap length (sent_piece_is b i h)
        ∙ length-slice-merged (skips (member i)) (parts (member i) b) junk me (in_parts b i q)
        ∙ sym (size_is b i q)
        ∙ omega arith
        ∙ ap (λ (x : Wire A). diffs x.recv_offsets i * x.item_size) (sym (wire_is r b h))

    -- A member's piece that is sent is its compressed partition for this rank.
    pub sent_partition :
        (b i : ℕ)
        → b < all
        → i < size (groups r)
        → left_out (groups r) r include i ≡ false
        → sent_piece b i
          ≡ compress_partition nvcomp (reps b) (buffer (member i) b).cascaded_format (record {
            items =
                slice
                  (buffer (member i) b).send_buffer
                  (get_or (buffer (member i) b).send_offsets me 0
                    * size_of (buffer (member i) b).dtype)
                  (diffs (buffer (member i) b).send_offsets me
                    * size_of (buffer (member i) b).dtype);
            count = diffs (buffer (member i) b).send_offsets me;
          })
    sent_partition b i h q takes =
        sent_piece_is b i h
        ∙ slice-merged (skips (member i)) (parts (member i) b) junk me (in_parts b i q) for_me
        ∙ get_or-map (compress_partition nvcomp (reps b) (buffer (member i) b).cascaded_format)
            (map given (range 0 (size (groups (member i))))) me (record { items = []; count = 0 })
            []
            (omega (
              arith,
              length-map given (range 0 (size (groups (member i)))),
              length-range 0 (size (groups (member i))),
              (cs r).same_size i q,
              (cs r).me_in,
            ))
        ∙ ap (compress_partition nvcomp (reps b) (buffer (member i) b).cascaded_format) (
            get_or-map-range given (record { items = []; count = 0 }) 0 (size (groups (member i)))
              me (omega (arith, (cs r).same_size i q, (cs r).me_in))
            ∙ ap given {x = 0 + me} (omega arith)
            ∙ if_false _ _ for_me)
      where
        given : ℕ → Partition A
        given =
            uncompressed nvcomp size_of junk (groups (member i)) (member i) include
              (buffer (member i) b)

        for_me : left_out (groups (member i)) (member i) include me ≡ false
        for_me =
            ap (λ v. not include && (v == member i)) ((cs r).agree i q me ∙ (cs r).me_at)
            ∙ ap (λ v. not include && v) (==_comm r (member i))
            ∙ takes
