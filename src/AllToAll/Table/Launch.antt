-- ===== src/AllToAll/Table/Launch.antt =====
-- What `launch_communication` brings a rank.
use distributed_join.Prelude.{
  ℕ, zero, suc, ◌+◌, ◌-◌, ◌*◌, ◌≤◌, ◌<◌, ◌≡◌, refl, sym, ap, ap₂, ◌∙◌, subst, arith, Bool, true,
  false, not, Option, some, List, [], ◌∷◌, map, length, get_or, ◌==◌, if_true, if_false, inl, inr,
  Bool-cases, ◌>>=◌, length-map, ==_iff,
}
use distributed_join.Prelude.Ranges.{
  range, flat_map, map-range_ext, get_or-map-range, get_or-map, length-range, flat_map-range_ext,
}
use distributed_join.Prelude.Segments.{
  offsets_of, last_or, diffs, diffs-offsets_of, offsets_climb, offsets_below, offsets_last,
}
use distributed_join.Prelude.Slices.{slice, length-slice}
use distributed_join.Group.{CommunicationGroup, size, get_global_rank, get_local_idx}
use distributed_join.Group.Collective.{IsCollective}
use distributed_join.Communicator.{Transport}
use distributed_join.Compression.{Leaf, TypeId, CompressionMethod, method, default_options, Nvcomp}
use distributed_join.AllToAll.Sizes.{counts_for}
use distributed_join.AllToAll.Messages.{Wire, Fits, piece}
use distributed_join.AllToAll.Comm.{
  AllToAllCommBuffer, nth, no_buffer, wire_by, all_to_all_comm, postprocess_all_to_all_comm,
  postprocess_by, postprocess_buffer,
}
use distributed_join.AllToAll.Comm.Plain.{wires, held, plain_items, all_to_all_comm_plain}
use distributed_join.AllToAll.Table.{
  AllToAllCommunicator, allocate_communicated_table, append_to_all_to_all_comm_buffers,
  launch_communication, no_column,
}
use distributed_join.AllToAll.Table.Copied.{own_rows_copied, length-allocate_communicated_table}

map-map :
    {B C D : Type 0} (f : C → D) (g : B → C) (xs : List B)
    → map f (map g xs) ≡ map (λ x. f (g x)) xs
map-map f g [] = refl
map-map f g (x ∷ xs) = ap (λ v. f (g x) ∷ v) (map-map f g xs)

-- What holds of all entries and of the default holds of any.
any_entry :
    {B : Type 0} (P : B → Type 0) (f : ℕ → B) (d : B) (i n k : ℕ)
    → ((j : ℕ) → P (f j))
    → P d
    → P (get_or (map f (range i n)) k d)
any_entry P f d i zero k h e = e
any_entry P f d i (suc n) zero h e = h i
any_entry P f d i (suc n) (suc k) h e = any_entry P f d (suc i) n k h e

module _ {A : Type 0} (nvcomp : Nvcomp A) (size_of : TypeId → ℕ) (junk : A) (t : Transport A)
    (mpi : Transport ℕ) (groups : ℕ → CommunicationGroup) (batch : Bool) (r : ℕ)
    (c : IsCollective groups r) (objects : ℕ → AllToAllCommunicator A)
    (communicated : ℕ → List (Leaf A)) (m : ℕ)
    (columns : (k : ℕ) → length (objects k).input_table ≡ m)
    (plain : (k i : ℕ)
      → method (get_or (objects k).compression_options i default_options)
        ≡ CompressionMethod.none) where
  abbrev column : ℕ → ℕ → Leaf A
  column k i = get_or (objects k).input_table i (no_column size_of junk)

  abbrev buffers : ℕ → List (AllToAllCommBuffer A)
  buffers k = append_to_all_to_all_comm_buffers size_of junk (objects k) (communicated k)

  buffers_plain :
      (k b : ℕ)
      → (nth nvcomp size_of junk (buffers k) b).compression_method ≡ CompressionMethod.none
  unfolding append_to_all_to_all_comm_buffers
  buffers_plain k b =
      any_entry (λ (b : AllToAllCommBuffer A). b.compression_method ≡ CompressionMethod.none) _ _ 0
        (length (objects k).input_table) b (plain k) refl

  length-buffers : (k : ℕ) → length (buffers k) ≡ m
  unfolding append_to_all_to_all_comm_buffers
  length-buffers k =
      length-map _ (range 0 (length (objects k).input_table)) ∙ length-range 0 _ ∙ columns k

  -- What is sent of column `b`, and how it is received.
  abbrev sent : ℕ → ℕ → Wire A
  sent k b = record {
    items = (column k b).items;
    send_offsets = (objects k).send_offsets;
    recv_offsets = (objects k).recv_offsets;
    item_size = size_of (column k b).dtype;
  }

  abbrev the_wires : ℕ → ℕ → Wire A
  the_wires = wires nvcomp size_of junk t mpi groups batch false buffers r c

  wire_at : (k b : ℕ) → b < m → the_wires k b ≡ sent k b
  unfolding append_to_all_to_all_comm_buffers
  wire_at k b h =
      ap (wire_by nvcomp size_of junk CompressionMethod.none) (
        get_or-map-range _ (no_buffer nvcomp size_of junk) 0 (length (objects k).input_table) b
          (omega (arith, columns k)))
      ∙ ap (sent k) {x = 0 + b} {y = b} (omega arith)

  abbrev me : ℕ
  me = get_local_idx (groups r)

  abbrev n : ℕ
  n = size (groups r)

  abbrev member : ℕ → ℕ
  member i = get_global_rank (groups r) i

  abbrev counts : List ℕ
  counts = counts_for mpi groups (λ k. (objects k).send_offsets) r c

  -- What member `i` has for this rank in column `b`.
  abbrev pub rows_from : ℕ → ℕ → List A
  rows_from b i =
      slice (column (member i) b).items
        (get_or (objects (member i)).send_offsets me 0 * size_of (column (member i) b).dtype)
        (diffs (objects (member i)).send_offsets me * size_of (column (member i) b).dtype)

  module _ (received : (objects r).recv_offsets ≡ offsets_of 0 counts)
      (allocated : communicated r ≡ allocate_communicated_table size_of junk (groups r) (objects r))
      (copying : (objects r).explicit_copy_to_current_rank ≡ true)
      (same_types : (k b : ℕ) → b < m → (column k b).dtype ≡ (column r b).dtype)
      (rows_fit : (i b : ℕ)
        → i < n
        → b < m
        → get_or (objects (member i)).send_offsets me 0 * size_of (column (member i) b).dtype
            + diffs (objects (member i)).send_offsets me * size_of (column (member i) b).dtype
          ≤ length (column (member i) b).items) where
    length-counts : length counts ≡ n
    length-counts = length-map _ (range 0 n) ∙ length-range 0 n

    -- The places for the rows of member `i` are as many as its rows.
    count_at :
        (i : ℕ)
        → i < n
        → diffs (objects r).recv_offsets i ≡ diffs (objects (member i)).send_offsets me
    count_at i h =
        ap (λ o. diffs o i) received
        ∙ diffs-offsets_of 0 counts i (omega (arith, length-counts))
        ∙ get_or-map-range (λ i. diffs (objects (member i)).send_offsets me) 0 0 n i h
        ∙ ap (λ i. diffs (objects (member i)).send_offsets me) {x = 0 + i} {y = i} (omega arith)

    climbs :
        (k : ℕ)
        → k < n
        → get_or (objects r).recv_offsets k 0 ≤ get_or (objects r).recv_offsets (k + 1) 0
    climbs k h =
        subst (λ o. get_or o k 0 ≤ get_or o (k + 1) 0) (sym received)
          (offsets_climb counts k (omega (arith, length-counts)))

    last_at : last_or (objects r).recv_offsets 0 ≡ get_or (objects r).recv_offsets n 0
    last_at =
        ap (λ o. last_or o 0) received
        ∙ offsets_last counts
        ∙ ap₂ (λ o k. get_or o k 0) (sym received) length-counts

    piece_rows :
        (b i : ℕ)
        → b < m
        → piece t groups batch false (length (buffers r)) the_wires r c b i ≡ rows_from b i
    piece_rows b i h =
        ap
          (λ (x : Wire A).
            slice x.items (get_or x.send_offsets me 0 * x.item_size)
              (diffs x.send_offsets me * x.item_size))
          (wire_at (member i) b h)

    alike :
        (b i : ℕ)
        → b < length (buffers r)
        → i < n
        → length (piece t groups batch false (length (buffers r)) the_wires r c b i)
          ≡ diffs (the_wires r b).recv_offsets i * (the_wires r b).item_size
    alike b i h q =
        let b_in : b < m = omega (arith, length-buffers r) in
        ap length (piece_rows b i b_in)
        ∙ length-slice (column (member i) b).items _ _ (rows_fit i b q b_in)
        ∙ ap₂ (λ (x y : ℕ). x * y) (sym (count_at i q)) (ap size_of (same_types (member i) b b_in))
        ∙ ap (λ (x : Wire A). diffs x.recv_offsets i * x.item_size) (sym (wire_at r b b_in))

    abbrev the_held : List (List A)
    the_held = held nvcomp size_of junk t mpi groups batch false buffers r c

    held_at :
        (b : ℕ)
        → b < m
        → get_or the_held b [] ≡ (get_or (communicated r) b (no_column size_of junk)).items
    unfolding append_to_all_to_all_comm_buffers
    held_at b h =
        get_or-map (λ b. b.recv_buffer) (buffers r) b (no_buffer nvcomp size_of junk) []
          (omega (arith, length-buffers r))
        ∙ ap (λ (b : AllToAllCommBuffer A). b.recv_buffer)
            (get_or-map-range _ (no_buffer nvcomp size_of junk) 0 (length (objects r).input_table) b
              (omega (arith, columns r)))
        ∙ ap (λ b. (get_or (communicated r) b (no_column size_of junk)).items) {x = 0 + b} {y = b}
            (omega arith)

    -- The rank's own part ends in the allocated table, and its own rows in the input.
    own_ends :
        get_or (objects r).recv_offsets me 0 + diffs (objects r).recv_offsets me
        ≤ last_or (objects r).recv_offsets 0
    own_ends =
        let below : get_or (objects r).recv_offsets (me + 1) 0
            ≤ get_or (objects r).recv_offsets n 0 =
          subst (λ o. get_or o (me + 1) 0 ≤ get_or o n 0) (sym received)
            (subst (λ k. get_or (offsets_of 0 counts) (me + 1) 0 ≤ get_or (offsets_of 0 counts) k 0)
              length-counts
              (offsets_below counts (n - (me + 1)) (me + 1)
                (omega (arith, length-counts, c.me_in)))) in
        omega (arith, climbs me c.me_in, last_at)

    own_count : diffs (objects r).recv_offsets me ≡ diffs (objects r).send_offsets me
    own_count = count_at me c.me_in ∙ ap (λ k. diffs (objects k).send_offsets me) c.me_at

    own_fits :
        (b : ℕ)
        → b < m
        → get_or (objects r).send_offsets me 0 * size_of (column r b).dtype
            + diffs (objects r).recv_offsets me * size_of (column r b).dtype
          ≤ length (column r b).items
    own_fits b h =
        subst
          (λ v.
            get_or (objects r).send_offsets me 0 * size_of (column r b).dtype
              + v * size_of (column r b).dtype
            ≤ length (column r b).items)
          (sym own_count)
          (subst
            (λ k.
              get_or (objects k).send_offsets me 0 * size_of (column k b).dtype
                + diffs (objects k).send_offsets me * size_of (column k b).dtype
              ≤ length (column k b).items)
            c.me_at (rows_fit me b c.me_in h))

    in_table : (b : ℕ) → b < m → b < length (objects r).input_table
    in_table b h = omega (arith, columns r)

    fits : (b : ℕ) → b < length (buffers r) → Fits n (the_wires r b) (get_or the_held b [])
    fits b h =
        let b_in : b < m = omega (arith, length-buffers r) in
        subst (λ x. Fits n x (get_or the_held b [])) (sym (wire_at r b b_in))
          (record {
            first = ap (λ o. get_or o 0 0) received;
            climbs = climbs;
            whole =
                ap length (
                  held_at b b_in
                  ∙ ap (λ table. (get_or table b (no_column size_of junk)).items) allocated)
                ∙ length-allocate_communicated_table size_of junk (groups r) (objects r) b
                    (in_table b b_in) copying own_ends (own_fits b b_in)
                ∙ ap (λ v. v * size_of (column r b).dtype) last_at;
          })

    -- The rows that are not exchanged are those that were copied.
    own_rows :
        (b : ℕ)
        → b < m
        → slice
            (get_or the_held b [])
            (get_or (the_wires r b).recv_offsets me 0 * (the_wires r b).item_size)
            (diffs (the_wires r b).recv_offsets me * (the_wires r b).item_size)
          ≡ rows_from b me
    own_rows b h =
        ap₂
          (λ items (x : Wire A).
            slice items (get_or x.recv_offsets me 0 * x.item_size)
              (diffs x.recv_offsets me * x.item_size))
          (held_at b h ∙ ap (λ table. (get_or table b (no_column size_of junk)).items) allocated)
          (wire_at r b h)
        ∙ own_rows_copied size_of junk (groups r) (objects r) b (in_table b h) copying own_ends
            (own_fits b h)
        ∙ ap
            (λ v.
              slice (column r b).items
                (get_or (objects r).send_offsets me 0 * size_of (column r b).dtype)
                (v * size_of (column r b).dtype))
            own_count
        ∙ ap
            (λ k.
              slice (column k b).items
                (get_or (objects k).send_offsets me 0 * size_of (column k b).dtype)
                (diffs (objects k).send_offsets me * size_of (column k b).dtype))
            (sym c.me_at)

    abbrev items_at : ℕ → List A
    items_at =
        plain_items nvcomp size_of junk t mpi groups batch false buffers r c buffers_plain
          (λ k. length-buffers k ∙ sym (length-buffers r)) fits alike

    items_lem : (b : ℕ) → b < m → items_at b ≡ flat_map (rows_from b) (range 0 n)
    items_lem b h = flat_map-range_ext _ (rows_from b) 0 n (λ k _ q.
        elim (Bool-cases (r == member k)) [
          | inl mine ↦
              let at : k ≡ me =
                c.distinct k me (sym ((==_iff r (member k)).0 mine) ∙ sym c.me_at) in
              if_true _ _ mine
              ∙ ap
                  (λ k.
                    slice (get_or the_held b [])
                      (get_or (the_wires r b).recv_offsets k 0 * (the_wires r b).item_size)
                      (diffs (the_wires r b).recv_offsets k * (the_wires r b).item_size))
                  at
              ∙ own_rows b h
              ∙ ap (rows_from b) (sym at)
          | inr other ↦ if_false _ _ other ∙ piece_rows b k h
        ])

    abbrev after_exchange : ℕ → AllToAllCommBuffer A
    after_exchange b = record (nth nvcomp size_of junk (buffers r) b) { recv_buffer = items_at b }

    postprocess_plain :
        (xs : List ℕ)
        → postprocess_all_to_all_comm nvcomp size_of junk (groups r) r false (map after_exchange xs)
          ≡ some (map after_exchange xs)
    unfolding postprocess_all_to_all_comm
    postprocess_plain [] = refl
    postprocess_plain (x ∷ xs) =
        ap₂ (λ o o'. o >>= λ y. o' >>= λ ys. some (y ∷ ys))
          (ap
            (λ method.
              postprocess_by nvcomp size_of junk method (after_exchange x)
                (postprocess_buffer nvcomp size_of junk (groups r) r false (after_exchange x)))
            (buffers_plain r x))
          (postprocess_plain xs)

    dtype_at : (b : ℕ) → b < m → (nth nvcomp size_of junk (buffers r) b).dtype ≡ (column r b).dtype
    unfolding append_to_all_to_all_comm_buffers
    dtype_at b h =
        ap (λ (b : AllToAllCommBuffer A). b.dtype)
          (get_or-map-range _ (no_buffer nvcomp size_of junk) 0 (length (objects r).input_table) b
            (in_table b h))
        ∙ ap (λ b. (column r b).dtype) {x = 0 + b} {y = b} (omega arith)

    -- `launch_communication` returns the table whose columns hold the rows that the members of the
    -- group have for this rank, in the order of the members.
    pub launch_communication_lem :
        launch_communication size_of junk nvcomp t mpi groups batch objects communicated r
        ≡ some (
            map
              (λ b. record {
                dtype = (column r b).dtype;
                items = flat_map (rows_from b) (range 0 n);
              })
              (range 0 m))
    unfolding launch_communication
    launch_communication_lem =
        ap
          (λ include.
            all_to_all_comm nvcomp size_of junk t mpi groups batch include buffers r
            >>= finish include)
          (ap not copying)
        ∙ ap (λ o. o >>= finish false)
            (all_to_all_comm_plain nvcomp size_of junk t mpi groups batch false buffers r c
              buffers_plain (λ k. length-buffers k ∙ sym (length-buffers r)) fits alike)
        ∙ ap (λ o. o >>= λ done. some (map leaf done))
            (postprocess_plain (range 0 (length (buffers r))))
        ∙ ap some (
            map-map leaf after_exchange (range 0 (length (buffers r)))
            ∙ ap (λ k. map (λ b. leaf (after_exchange b)) (range 0 k)) (length-buffers r)
            ∙ map-range_ext _ _ 0 m (λ b _ h.
              ap₂ (λ d (xs : List A). record { dtype = d; items = xs }) (dtype_at b (omega arith))
                (items_lem b (omega arith))))
      where
        leaf : AllToAllCommBuffer A → Leaf A
        leaf b = record { dtype = b.dtype; items = b.recv_buffer }

        finish : Bool → List (AllToAllCommBuffer A) → Option (List (Leaf A))
        finish include bs =
            postprocess_all_to_all_comm nvcomp size_of junk (groups r) r include bs >>= λ done.
            some (map leaf done)
