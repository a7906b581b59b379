-- ===== src/AllToAll/Comm/Compressed/Restored.antt =====
-- `postprocess_all_to_all_comm` after `all_to_all_comm` of compressed buffers.
use distributed_join.Prelude.{
  ℕ, ◌+◌, ◌*◌, ◌<◌, ◌≡◌, refl, sym, ap, ap₂, ◌∙◌, Bool, true, false, not, ◌&&◌, Option, some, List,
  [], ◌∷◌, map, arith, length, get_or, ◌>>=◌, length-map, if◌then◌else◌, if_true, if_false,
  Bool-cases, inl, inr,
}
use distributed_join.Prelude.Ranges.{
  range, each, each-range, get_or-map-range, get_or-map, flat_map-range_ext,
}
use distributed_join.Prelude.Segments.{offsets_of, diffs, write_rounds, write_loop}
use distributed_join.Prelude.Slices.{slice}
use distributed_join.Group.{CommunicationGroup, size, get_global_rank, get_local_idx}
use distributed_join.Group.Collective.{IsCollective}
use distributed_join.Communicator.{Transport}
use distributed_join.Compression.{TypeId, Nvcomp, cascaded_rep}
use distributed_join.Compression.Functors.{decompress_partition, decompress-compress}
use distributed_join.AllToAll.Messages.{
  Wire, Fits, piece, gathered, skipped, before, place_next, length-before, before_covers,
}
use distributed_join.AllToAll.Comm.{
  AllToAllCommBuffer, left_out, nth, no_buffer, received, received_by, all_to_all_comm,
  postprocess_buffer, postprocess_by, postprocess_all_to_all_comm,
}
use distributed_join.AllToAll.Comm.Staged.{all_to_all_comm_staged}
use distributed_join.AllToAll.Comm.Compressed
use distributed_join.AllToAll.Comm.Compressed.{IsCompressed}
use distributed_join.AllToAll.Comm.Plain
use distributed_join.AllToAll.Comm.Compressed.Received

if_nested :
    {A : Type 0} (s : Bool) (x y : List A)
    → (if s then x else (if s then [] else y)) ≡ (if s then x else y)
if_nested true x y = refl
if_nested false x y = refl

pub each_of_map :
    {B C D : Type 0} (f : C → Option D) (g : B → C) (xs : List B)
    → each f (map g xs) ≡ each (λ x. f (g x)) xs
each_of_map f g [] = refl
each_of_map f g (x ∷ xs) = ap (λ o. f (g x) >>= λ y. o >>= λ ys. some (y ∷ ys)) (each_of_map f g xs)

module _ {A : Type 0} (nvcomp : Nvcomp A) (size_of : TypeId → ℕ) (junk : A) (t : Transport A)
    (mpi : Transport ℕ) (groups : ℕ → CommunicationGroup) (batch include : Bool)
    (buffers : ℕ → List (AllToAllCommBuffer A)) (cs : (k : ℕ) → IsCollective groups k) (all : ℕ)
    (dtypes reps : ℕ → TypeId) (ready : IsCompressed nvcomp size_of junk buffers all dtypes reps)
    (r : ℕ) where
  abbrev n : ℕ
  n = size (groups r)

  abbrev member : ℕ → ℕ
  member i = get_global_rank (groups r) i

  abbrev me : ℕ
  me = get_local_idx (groups r)

  abbrev buffer : ℕ → ℕ → AllToAllCommBuffer A
  buffer k b = nth nvcomp size_of junk (buffers k) b

  abbrev staged_at : ℕ → AllToAllCommBuffer A
  staged_at b =
      Received.staged_at nvcomp size_of junk t mpi groups batch include buffers cs all dtypes reps
        ready r b

  abbrev sizes_for : ℕ → List ℕ
  sizes_for b =
      Received.sizes_for nvcomp size_of junk t mpi groups batch include buffers cs all dtypes reps
        ready r b

  abbrev sent_items : ℕ → List A
  sent_items b =
      Received.sent_items nvcomp size_of junk t mpi groups batch include buffers cs all dtypes reps
        ready r b

  -- The same exchange without compression.
  abbrev plain_wires : ℕ → ℕ → Wire A
  plain_wires = Plain.wires nvcomp size_of junk t mpi groups batch include buffers r (cs r)

  abbrev pub held : List (List A)
  held = Plain.held nvcomp size_of junk t mpi groups batch include buffers r (cs r)

  pub length-held : length held ≡ all
  length-held = length-map _ (buffers r) ∙ ready.same r

  abbrev pub plain_piece : ℕ → ℕ → List A
  plain_piece b i = piece t groups batch include all plain_wires r (cs r) b i

  -- What the members have for this rank fits its receive buffers, and the counts agree.
  pub record IsRoomy : Type 0 where
    pub fits : (b : ℕ) → b < all → Fits n (plain_wires r b) (get_or held b [])
    pub counts :
        (b i : ℕ)
        → b < all
        → i < n
        → diffs (buffer r b).recv_offsets i ≡ diffs (buffer (member i) b).send_offsets me
    pub alike :
        (b i : ℕ)
        → b < all
        → i < n
        → length (plain_piece b i) ≡ diffs (buffer r b).recv_offsets i * size_of (buffer r b).dtype

  module _ (roomy : IsRoomy) where
    -- What a buffer would receive without compression.
    abbrev pub whole : ℕ → List A
    whole b =
        gathered t groups batch include all plain_wires r (cs r) held length-held roomy.fits
          roomy.alike b

    -- One partition, restored.
    restored :
        (b i : ℕ)
        → b < all
        → i < n
        → left_out (groups r) r include i ≡ false
        → decompress_partition nvcomp
            (reps b)
            (size_of (buffer r b).dtype)
            (slice
              (sent_items b)
              (get_or (offsets_of 0 (sizes_for b)) i 0)
              (diffs (offsets_of 0 (sizes_for b)) i))
            (diffs (buffer r b).recv_offsets i)
          ≡ some (plain_piece b i)
    restored b i h q takes =
        ap₂ (decompress_partition nvcomp (reps b) (size_of (buffer r b).dtype))
          (Received.sent_at nvcomp size_of junk t mpi groups batch include buffers cs all dtypes
              reps ready r b i h q takes
            ∙ Compressed.sent_partition nvcomp size_of junk t mpi groups batch include buffers cs
                all dtypes reps ready r b i h q takes)
          (roomy.counts b i h q)
        ∙ decompress-compress nvcomp (reps b) (buffer (member i) b).cascaded_format
            (record {
              items = plain_piece b i;
              count = diffs (buffer (member i) b).send_offsets me;
            })
            (size_of (buffer r b).dtype)
            (roomy.alike b i h q ∙ ap (λ v. v * size_of (buffer r b).dtype) (roomy.counts b i h q))

    abbrev outputs : ℕ → ℕ → List A
    outputs b i = if left_out (groups r) r include i then [] else plain_piece b i

    -- A buffer with what it received.
    abbrev got : ℕ → AllToAllCommBuffer A
    got b = record (staged_at b) { compressed_recv_buffer = sent_items b }

    all_restored :
        (b : ℕ)
        → b < all
        → each
            (λ i.
              if left_out (groups r) r include i
              then some []
              else decompress_partition nvcomp
                  (reps b)
                  (size_of (buffer r b).dtype)
                  (slice
                    (sent_items b)
                    (get_or (offsets_of 0 (sizes_for b)) i 0)
                    (diffs (offsets_of 0 (sizes_for b)) i))
                  (diffs (buffer r b).recv_offsets i))
            (range 0 n)
          ≡ some (map (outputs b) (range 0 n))
    all_restored b h = each-range _ (outputs b) 0 n (λ i _ q. by_turn i (omega arith))
      where
        by_turn :
            (i : ℕ)
            → i < n
            → (if left_out (groups r) r include i
                then some []
                else decompress_partition nvcomp
                    (reps b)
                    (size_of (buffer r b).dtype)
                    (slice
                      (sent_items b)
                      (get_or (offsets_of 0 (sizes_for b)) i 0)
                      (diffs (offsets_of 0 (sizes_for b)) i))
                    (diffs (buffer r b).recv_offsets i))
              ≡ some (outputs b i)
        by_turn i q = elim (Bool-cases (left_out (groups r) r include i)) [
          | inl out ↦ if_true _ _ out ∙ ap some (sym (if_true _ _ out))
          | inr takes ↦
              if_false _ _ takes ∙ restored b i h q takes ∙ ap some (sym (if_false _ _ takes))
        ]

    -- The restored partitions in their places.
    written :
        (b : ℕ)
        → b < all
        → write_rounds
            (left_out (groups r) r include)
            (λ i. get_or (buffer r b).recv_offsets i 0 * size_of (buffer r b).dtype)
            (λ i. get_or (map (outputs b) (range 0 n)) i [])
            (range 0 n)
            (buffer r b).recv_buffer
          ≡ whole b
    written b h =
        write_loop (left_out (groups r) r include) off n old new
          (λ k q.
            place_next t groups batch include all plain_wires r (cs r) held length-held roomy.fits
              roomy.alike b h k q
            ∙ ap (λ v. off k + v)
                (sym (
                  length-before t groups batch include all plain_wires r (cs r) held length-held
                    roomy.fits roomy.alike b h k q)))
          (λ k q f.
            ap length (new_is k q ∙ if_false _ _ f)
            ∙ roomy.alike b k h q
            ∙ sym (
                length-before t groups batch include all plain_wires r (cs r) held length-held
                  roomy.fits roomy.alike b h k q))
          n 0 [] (buffer r b).recv_buffer (omega arith)
          (sym held_is
            ∙ before_covers t groups batch include all plain_wires r (cs r) held length-held
                roomy.fits roomy.alike b h)
          at_zero
        ∙ flat_map-range_ext _ _ 0 n (λ k _ q. turn k (omega arith))
      where
        off : ℕ → ℕ
        off i = get_or (buffer r b).recv_offsets i 0 * size_of (buffer r b).dtype

        old : ℕ → List A
        old k =
            before t groups batch include all plain_wires r (cs r) held length-held roomy.fits
              roomy.alike b k

        new : ℕ → List A
        new i = get_or (map (outputs b) (range 0 n)) i []

        held_is : get_or held b [] ≡ (buffer r b).recv_buffer
        held_is =
            get_or-map (λ c. c.recv_buffer) (buffers r) b (no_buffer nvcomp size_of junk) []
              (omega (arith, ready.same r))

        at_zero : off 0 ≡ 0
        at_zero = omega (arith, ap (λ v. v * size_of (buffer r b).dtype) (roomy.fits b h).first)

        new_is : (k : ℕ) → k < n → new k ≡ outputs b k
        new_is k q =
            get_or-map-range (outputs b) [] 0 n k q ∙ ap (outputs b) {x = 0 + k} (omega arith)

        turn :
            (k : ℕ)
            → k < n
            → (if left_out (groups r) r include k then old k else new k) ≡ (
                if skipped t groups batch include all plain_wires r (cs r) k
                then old k
                else plain_piece b k)
        turn k q =
            ap (λ v. if left_out (groups r) r include k then old k else v) (new_is k q)
            ∙ if_nested (left_out (groups r) r include k) (old k) (plain_piece b k)
            ∙ ap (λ v. if not include && v then old k else plain_piece b k)
                (sym (Compressed.==_comm r (member k)))

    postprocess_got :
        (b : ℕ)
        → b < all
        → postprocess_buffer nvcomp size_of junk (groups r) r include (got b)
          ≡ some (record (got b) { recv_buffer = whole b })
    unfolding postprocess_buffer
    postprocess_got b h =
        ap (λ o. o >>= decode) (ap cascaded_rep (ready.types r b h) ∙ ready.supported b h)
        ∙ ap (λ o. o >>= put) (all_restored b h)
        ∙ ap (λ v. some (record (got b) { recv_buffer = v })) (written b h)
      where
        put : List (List A) → Option (AllToAllCommBuffer A)
        put os = some (record (got b) {
          recv_buffer =
              write_rounds (left_out (groups r) r include)
                (λ i. get_or (buffer r b).recv_offsets i 0 * size_of (buffer r b).dtype)
                (λ i. get_or os i []) (range 0 n) (buffer r b).recv_buffer;
        })

        decode : TypeId → Option (AllToAllCommBuffer A)
        decode rep =
            each
              (λ i.
                if left_out (groups r) r include i
                then some []
                else decompress_partition nvcomp rep (size_of (buffer r b).dtype)
                    (slice (sent_items b) (get_or (offsets_of 0 (sizes_for b)) i 0)
                      (diffs (offsets_of 0 (sizes_for b)) i))
                    (diffs (buffer r b).recv_offsets i))
              (range 0 n)
            >>= put

    -- A buffer as `all_to_all_comm` leaves it.
    abbrev arrived : ℕ → AllToAllCommBuffer A
    arrived b =
        received nvcomp size_of junk
          (nth nvcomp size_of junk
            (Compressed.prepared nvcomp size_of junk t mpi groups batch include buffers cs all
              dtypes reps ready r)
            b)
          (sent_items b)

    arrived_is : (b : ℕ) → b < all → arrived b ≡ got b
    arrived_is b h =
        ap (λ c. received nvcomp size_of junk c (sent_items b))
          (Compressed.nth-prepared nvcomp size_of junk t mpi groups batch include buffers cs all
            dtypes reps ready r b h)
        ∙ ap (λ m. received_by nvcomp size_of junk m (staged_at b) (sent_items b))
            (ready.methods r b h)

    postprocess_one :
        (b : ℕ)
        → b < all
        → postprocess_by nvcomp size_of junk
            (arrived b).compression_method
            (arrived b)
            (postprocess_buffer nvcomp size_of junk (groups r) r include (arrived b))
          ≡ some (record (got b) { recv_buffer = whole b })
    postprocess_one b h =
        ap
          (λ (c : AllToAllCommBuffer A).
            postprocess_by nvcomp size_of junk c.compression_method c
              (postprocess_buffer nvcomp size_of junk (groups r) r include c))
          (arrived_is b h)
        ∙ ap
            (λ m.
              postprocess_by nvcomp size_of junk m (got b)
                (postprocess_buffer nvcomp size_of junk (groups r) r include (got b)))
            (ready.methods r b h)
        ∙ postprocess_got b h

    pub all_to_all_comm_restored :
        (all_to_all_comm nvcomp size_of junk t mpi groups batch include buffers r
          >>= postprocess_all_to_all_comm nvcomp size_of junk (groups r) r include)
        ≡ some (map (λ b. record (got b) { recv_buffer = whole b }) (range 0 all))
    unfolding postprocess_all_to_all_comm
    all_to_all_comm_restored =
        ap (λ o. o >>= postprocess_all_to_all_comm nvcomp size_of junk (groups r) r include)
          (all_to_all_comm_staged nvcomp size_of junk t mpi groups batch include buffers r (cs r)
            all
            (Compressed.prepared nvcomp size_of junk t mpi groups batch include buffers cs all
              dtypes reps ready)
            (Compressed.length-prepared nvcomp size_of junk t mpi groups batch include buffers cs
              all dtypes reps ready)
            (Compressed.staged nvcomp size_of junk t mpi groups batch include buffers cs all dtypes
              reps ready)
            (Compressed.compressed_fits nvcomp size_of junk t mpi groups batch include buffers cs
              all dtypes reps ready r)
            (Compressed.compressed_alike nvcomp size_of junk t mpi groups batch include buffers cs
              all dtypes reps ready r))
        ∙ each_of_map _ arrived (range 0 all)
        ∙ each-range _ (λ b. record (got b) { recv_buffer = whole b }) 0 all
            (λ b _ h. postprocess_one b (omega arith))
