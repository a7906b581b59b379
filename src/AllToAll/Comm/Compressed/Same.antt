-- ===== src/AllToAll/Comm/Compressed/Same.antt =====
-- Compressed and uncompressed buffers receive the same data.
use mathlib.Core.Path.{subst}
use distributed_join.Prelude.{
  ℕ, zero, suc, ◌*◌, ◌<◌, ◌≡◌, refl, sym, ap, ap₂, ◌∙◌, Bool, Option, some, List, [], ◌∷◌, map,
  arith, length, get_or, ◌>>=◌, length-map, if◌then◌else◌, fun_ext,
}
use distributed_join.Prelude.Ranges.{range, flat_map, each-range, map-range_ext}
use distributed_join.Prelude.Segments.{diffs}
use distributed_join.Prelude.Slices.{slice}
use distributed_join.Group.{CommunicationGroup, size}
use distributed_join.Group.Collective.{IsCollective}
use distributed_join.Communicator.{Transport}
use distributed_join.Compression.{CompressionMethod, TypeId, Nvcomp}
use distributed_join.AllToAll.Messages.{Wire, Fits, piece, skipped}
use distributed_join.AllToAll.Comm.{
  AllToAllCommBuffer, nth, no_buffer, all_to_all_comm, postprocess_buffer, postprocess_by,
  postprocess_all_to_all_comm,
}
use distributed_join.AllToAll.Comm.Compressed.{IsCompressed}
use distributed_join.AllToAll.Comm.Compressed.Restored.{
  IsRoomy, whole, all_to_all_comm_restored, each_of_map,
}
use distributed_join.AllToAll.Comm.Plain

module _ {A : Type 0} where
  -- A buffer with its compression switched off.
  abbrev pub uncompressed_buffer : AllToAllCommBuffer A → AllToAllCommBuffer A
  uncompressed_buffer b = record b { compression_method = CompressionMethod.none }

  -- What the buffers have received.
  abbrev pub received_data : Option (List (AllToAllCommBuffer A)) → Option (List (List A))
  received_data o = o >>= λ bs. some (map (λ b. b.recv_buffer) bs)

map-map :
    {A B C : Type 0} (f : B → C) (g : A → B) (xs : List A)
    → map f (map g xs) ≡ map (λ x. f (g x)) xs
map-map f g [] = refl
map-map f g (x ∷ xs) = ap (◌∷◌ (f (g x))) (map-map f g xs)

get_or-map_self :
    {A : Type 0} (f : A → A) (xs : List A) (i : ℕ) (d : A)
    → f d ≡ d
    → get_or (map f xs) i d ≡ f (get_or xs i d)
get_or-map_self f [] i d e = sym e
get_or-map_self f (x ∷ xs) zero d e = refl
get_or-map_self f (x ∷ xs) (suc i) d e = get_or-map_self f xs i d e

module _ {A : Type 0} (nvcomp : Nvcomp A) (size_of : TypeId → ℕ) (junk : A) (t : Transport A)
    (mpi : Transport ℕ) (groups : ℕ → CommunicationGroup) (batch include : Bool)
    (buffers : ℕ → List (AllToAllCommBuffer A)) (cs : (k : ℕ) → IsCollective groups k) (all : ℕ)
    (dtypes reps : ℕ → TypeId) (ready : IsCompressed nvcomp size_of junk buffers all dtypes reps)
    (r : ℕ)
    (roomy : IsRoomy nvcomp size_of junk t mpi groups batch include buffers cs all dtypes reps ready
      r) where
  abbrev plain : ℕ → List (AllToAllCommBuffer A)
  plain k = map uncompressed_buffer (buffers k)

  nth-plain :
      (k b : ℕ)
      → nth nvcomp size_of junk (plain k) b
        ≡ uncompressed_buffer (nth nvcomp size_of junk (buffers k) b)
  nth-plain k b =
      get_or-map_self uncompressed_buffer (buffers k) b (no_buffer nvcomp size_of junk) refl

  length-plain : (k : ℕ) → length (plain k) ≡ all
  length-plain k = length-map _ (buffers k) ∙ ready.same k

  plain_is : Plain.IsPlain nvcomp size_of junk t mpi groups batch include plain r (cs r)
  plain_is k b = ap (λ c. c.compression_method) (nth-plain k b)

  wires_same :
      Plain.wires nvcomp size_of junk t mpi groups batch include plain r (cs r)
      ≡ Plain.wires nvcomp size_of junk t mpi groups batch include buffers r (cs r)
  wires_same = fun_ext λ k. fun_ext λ b.
      ap
        (λ (c : AllToAllCommBuffer A). record {
          items = c.send_buffer;
          send_offsets = c.send_offsets;
          recv_offsets = c.recv_offsets;
          item_size = size_of c.dtype;
        })
        (nth-plain k b)

  held_same :
      Plain.held nvcomp size_of junk t mpi groups batch include plain r (cs r)
      ≡ Plain.held nvcomp size_of junk t mpi groups batch include buffers r (cs r)
  held_same = map-map _ _ (buffers r)

  all_same : Plain.all nvcomp size_of junk t mpi groups batch include plain r (cs r) ≡ all
  all_same = length-plain r

  plain_fits :
      (b : ℕ)
      → b < Plain.all nvcomp size_of junk t mpi groups batch include plain r (cs r)
      → Fits
          (size (groups r))
          (Plain.wires nvcomp size_of junk t mpi groups batch include plain r (cs r) r b)
          (get_or (Plain.held nvcomp size_of junk t mpi groups batch include plain r (cs r)) b [])
  plain_fits b h =
      subst
        (λ (w : ℕ → ℕ → Wire A).
          Fits (size (groups r)) (w r b) (
            get_or (Plain.held nvcomp size_of junk t mpi groups batch include plain r (cs r)) b []))
        (sym wires_same)
        (subst
          (λ (v : List (List A)).
            Fits (size (groups r))
              (Plain.wires nvcomp size_of junk t mpi groups batch include buffers r (cs r) r b)
              (get_or v b []))
          (sym held_same) (roomy.fits b (omega (arith, all_same))))

  plain_alike :
      (b i : ℕ)
      → b < Plain.all nvcomp size_of junk t mpi groups batch include plain r (cs r)
      → i < size (groups r)
      → length (
          piece t groups batch include
            (Plain.all nvcomp size_of junk t mpi groups batch include plain r (cs r))
            (Plain.wires nvcomp size_of junk t mpi groups batch include plain r (cs r))
            r
            (cs r)
            b
            i)
        ≡ diffs
            (Plain.wires nvcomp size_of junk t mpi groups batch include plain r
              (cs r)
              r
              b).recv_offsets
            i
          * (Plain.wires nvcomp size_of junk t mpi groups batch include plain r
              (cs r)
              r
              b).item_size
  plain_alike b i h q =
      subst
        (λ (w : ℕ → ℕ → Wire A).
          length (
            piece t groups batch include
              (Plain.all nvcomp size_of junk t mpi groups batch include plain r (cs r)) w r (cs r) b
              i)
          ≡ diffs (w r b).recv_offsets i * (w r b).item_size)
        (sym wires_same) (roomy.alike b i (omega (arith, all_same)) q)

  abbrev plain_items : ℕ → List A
  plain_items b =
      Plain.plain_items nvcomp size_of junk t mpi groups batch include plain r (cs r) plain_is
        (λ k. length-plain k ∙ sym (length-plain r)) plain_fits plain_alike b

  items_same :
      (b : ℕ)
      → plain_items b
        ≡ whole nvcomp size_of junk t mpi groups batch include buffers cs all dtypes reps ready r
            roomy b
  items_same b =
      ap₂
        (λ (w : ℕ → ℕ → Wire A) (v : List (List A)).
          flat_map
            (λ k.
              if skipped t groups batch include all w r (cs r) k
              then slice (get_or v b []) (get_or (w r b).recv_offsets k 0 * (w r b).item_size)
                  (diffs (w r b).recv_offsets k * (w r b).item_size)
              else piece t groups batch include all w r (cs r) b k)
            (range 0 (size (groups r))))
        wires_same held_same

  -- A plain buffer with what it received.
  abbrev filled : ℕ → AllToAllCommBuffer A
  filled b = record (nth nvcomp size_of junk (plain r) b) { recv_buffer = plain_items b }

  plain_received :
      received_data (
        all_to_all_comm nvcomp size_of junk t mpi groups batch include plain r
        >>= postprocess_all_to_all_comm nvcomp size_of junk (groups r) r include)
      ≡ some (
          map
            (whole nvcomp size_of junk t mpi groups batch include buffers cs all dtypes reps ready r
              roomy)
            (range 0 all))
  unfolding postprocess_all_to_all_comm
  plain_received =
      ap
        (λ o.
          received_data
            (o >>= postprocess_all_to_all_comm nvcomp size_of junk (groups r) r include))
        (Plain.all_to_all_comm_plain nvcomp size_of junk t mpi groups batch include plain r (cs r)
          plain_is (λ k. length-plain k ∙ sym (length-plain r)) plain_fits plain_alike)
      ∙ ap received_data (
          each_of_map _ filled
            (range 0 (Plain.all nvcomp size_of junk t mpi groups batch include plain r (cs r)))
          ∙ each-range _ filled 0
              (Plain.all nvcomp size_of junk t mpi groups batch include plain r (cs r))
              (λ b _ _.
                ap
                  (λ m.
                    postprocess_by nvcomp size_of junk m (filled b)
                      (postprocess_buffer nvcomp size_of junk (groups r) r include (filled b)))
                  (plain_is r b)))
      ∙ ap some (
          map-map (λ (c : AllToAllCommBuffer A). c.recv_buffer) filled
            (range 0 (Plain.all nvcomp size_of junk t mpi groups batch include plain r (cs r)))
          ∙ ap (λ n. map plain_items (range 0 n)) all_same
          ∙ map-range_ext plain_items
              (whole nvcomp size_of junk t mpi groups batch include buffers cs all dtypes reps ready
                r roomy)
              0 all (λ b _ _. items_same b))

  -- If the groups of all ranks fit together, all ranks have the same number of buffers, each to
  -- be compressed by the cascaded method and of a type that nvcomp supports and that is the same
  -- on all ranks, and the receive buffers of this rank fit what the members have for it, with
  -- the same counts on both sides, then all_to_all_comm followed by postprocess_all_to_all_comm
  -- returns, also with the compression switched off, and its receive buffers hold the same data in
  -- both cases.
  pub compressed_same :
      (received : List (List A)) × (received_data (
          all_to_all_comm nvcomp size_of junk t mpi groups batch include buffers r
          >>= postprocess_all_to_all_comm nvcomp size_of junk (groups r) r include)
        ≡ some received)
      × (received_data (
            all_to_all_comm nvcomp size_of junk t mpi groups batch include
              (λ k. map uncompressed_buffer (buffers k))
              r
            >>= postprocess_all_to_all_comm nvcomp size_of junk (groups r) r include)
          ≡ some received)
  compressed_same = (
    map
        (whole nvcomp size_of junk t mpi groups batch include buffers cs all dtypes reps ready r
          roomy)
        (range 0 all),
    ap received_data (
          all_to_all_comm_restored nvcomp size_of junk t mpi groups batch include buffers cs all
            dtypes reps ready r roomy)
        ∙ ap some (map-map (λ (c : AllToAllCommBuffer A). c.recv_buffer) _ (range 0 all)),
    plain_received,
  )
