-- ===== src/StringsColumn/Gathered.antt =====
-- The offsets of strings that are communicated are those of the column that is made of the sizes.
use distributed_join.Prelude.{
  ℕ, zero, suc, ◌+◌, ◌-◌, ◌<◌, ◌≤◌, ◌≡◌, refl, sym, ap, ap₂, ◌∙◌, some, List, [], ◌∷◌, map, arith,
  length, get_or, take, sum, replicate, ◌>>=◌, take_all, length-map, length-replicate, fun_ext,
}
use distributed_join.Prelude.Ranges.{
  range, flat_map, each-range, length-range, map-range_ext, get_or-map, flat_map-range_ext,
}
use distributed_join.Prelude.Segments.{
  partial_sum, offsets_of, diffs, last_or, get_or-offsets_of, last_or-offsets_of,
}
use distributed_join.Prelude.Sums.{sum_of_pieces, length-flat_map, sum-take_below}
use distributed_join.Prelude.Slices.{write_at, write_at_whole}
use distributed_join.Group.{CommunicationGroup, size, get_global_rank, get_local_idx}
use distributed_join.Group.Collective.{IsCollective}
use distributed_join.Communicator.{Transport}
use distributed_join.AllToAll.{communicate_sizes}
use distributed_join.AllToAll.Sizes.{communicate_sizes_lem}
use distributed_join.StringsColumn.{
  Column, fixed_width, string_column, string_sizes, sizes_to_send, string_offsets, offsets_child,
  gathered_offsets, gather_column, gather_string_offsets, sizes_buffer,
}
use distributed_join.StringsColumn.Sizes.{written}
use distributed_join.StringsColumn.Sent.{Splits-sizes_to_send, sizes_to_send_lem}
use distributed_join.Shuffle.{Exchange, rows_at}

-- The lengths of the strings of some rows add up to the difference of their offsets.
sum_of_sizes :
    (child : List ℕ) (m b : ℕ)
    → ((j : ℕ) → b ≤ j → j < b + m → get_or child j 0 ≤ get_or child (j + 1) 0)
    → (get_or child b 0 ≤ get_or child (b + m) 0)
      × (sum (map (diffs child) (range b m)) ≡ get_or child (b + m) 0 - get_or child b 0)
sum_of_sizes child zero b h =
    let e : get_or child (b + 0) 0 ≡ get_or child b 0 = ap (λ j. get_or child j 0) (omega arith) in
    (omega arith, omega arith)
sum_of_sizes child (suc m) b h =
    let e : get_or child (suc b + m) 0 ≡ get_or child (b + suc m) 0 =
      ap (λ j. get_or child j 0) (omega arith) in
    let s : get_or child (b + 1) 0 ≡ get_or child (suc b) 0 =
      ap (λ j. get_or child j 0) (omega arith) in
    let (low, total) = sum_of_sizes child m (suc b) (λ j p q. h j (omega arith) (omega arith)) in
    let first : get_or child b 0 ≤ get_or child (b + 1) 0 = h b (omega arith) (omega arith) in
    (omega arith, omega arith)

module _ (mpi : Transport ℕ) (groups : ℕ → CommunicationGroup) (offsets : ℕ → List ℕ)
    (sized : (k : ℕ) → length (offsets k) ≡ size (groups k) + 1) (r : ℕ)
    (c : IsCollective groups r) where
  abbrev member : ℕ → ℕ
  member i = get_global_rank (groups r) i

  -- The first row that member `i` has for this rank, and the row after the last one.
  abbrev pub first_row : ℕ → ℕ
  first_row i = get_or (offsets (member i)) (get_local_idx (groups r)) 0

  abbrev pub end_row : ℕ → ℕ
  end_row i = get_or (offsets (member i)) (get_local_idx (groups r) + 1) 0

  -- The offsets of the strings that start the rows at the offsets.
  abbrev pub at_offsets : ℕ → Column → List ℕ
  at_offsets k column = map (λ row. get_or (offsets_child column) row 0) (offsets k)

  gathered_is :
      (k : ℕ) (column : Column)
      → gathered_offsets (groups k) (offsets k) column ≡ at_offsets k column
  unfolding gathered_offsets
  gathered_is k column = write_at_whole (replicate (size (groups k) + 1) 0) (at_offsets k column) (
      omega (
        arith,
        length-map (λ row. get_or (offsets_child column) row 0) (offsets k),
        length-replicate {A = ℕ} (size (groups k) + 1) 0,
        sized k,
      ))

  -- The characters that the members have for this rank, by member.
  abbrev pub characters : (ℕ → Column) → List ℕ
  characters columns =
      map
        (λ i.
          get_or (offsets_child (columns (member i))) (end_row i) 0
          - get_or (offsets_child (columns (member i))) (first_row i) 0)
        (range 0 (size (groups r)))

  -- What `gather_string_offsets` has for a column.
  abbrev pub string_offsets_of : (ℕ → Column) → Column → List ℕ × List ℕ
  string_offsets_of columns fixed_width = ([], [])
  string_offsets_of columns (string_column nrows child) =
      (at_offsets r (columns r), offsets_of 0 (characters columns))

  gather_column_lem :
      (columns : ℕ → Column) (column : Column)
      → gather_column mpi groups columns offsets r column ≡ some (string_offsets_of columns column)
  unfolding gather_column
  gather_column_lem columns fixed_width = refl
  gather_column_lem columns (string_column nrows child) =
      ap (λ (f : ℕ → List ℕ). communicate_sizes mpi groups f r >>= λ recv. some (f r, recv))
        (fun_ext λ k. gathered_is k (columns k))
      ∙ ap (λ o. o >>= λ recv. some (at_offsets r (columns r), recv))
          (communicate_sizes_lem mpi groups (λ k. at_offsets k (columns k)) r c)
      ∙ ap (λ v. some (at_offsets r (columns r), offsets_of 0 v))
          (map-range_ext _ _ 0 (size (groups r)) (λ i _ h.
            ap₂ ◌-◌
              (get_or-map (λ row. get_or (offsets_child (columns (member i))) row 0)
                (offsets (member i)) (get_local_idx (groups r) + 1) 0 0
                (omega (arith, sized (member i), c.same_size i (omega arith), c.me_in)))
              (get_or-map (λ row. get_or (offsets_child (columns (member i))) row 0)
                (offsets (member i)) (get_local_idx (groups r)) 0 0
                (omega (arith, sized (member i), c.same_size i (omega arith), c.me_in)))))

  -- If the groups fit together and each rank has an offset for each member and one more, then for
  -- each column of strings `gather_string_offsets` has the offsets of the strings at the rows where
  -- the parts for the members start, and the running sums of the numbers of characters that the members
  -- have for this rank; for another column it has nothing.
  pub gather_string_offsets_lem :
      (tables : ℕ → List Column)
      → gather_string_offsets mpi groups tables offsets r
        ≡ some (
            map
              (λ icol.
                string_offsets_of
                  (λ k. get_or (tables k) icol fixed_width)
                  (get_or (tables r) icol fixed_width))
              (range 0 (length (tables r))))
  unfolding gather_string_offsets
  gather_string_offsets_lem tables =
      each-range _ _ 0 (length (tables r)) (λ icol _ _. gather_column_lem _ _)

  module _ (nrows : ℕ → ℕ) (children : ℕ → List ℕ) where
    abbrev columns : ℕ → Column
    columns k = string_column (nrows k) (children k)

    -- The sizes of the strings that the members have for this rank, as they are received.
    abbrev pub received_sizes : List ℕ
    received_sizes =
        flat_map (λ i. string_sizes (first_row i) (end_row i) (columns (member i)))
          (range 0 (size (groups r)))

    abbrev pub row_counts : List ℕ
    row_counts =
        map (λ i. diffs (offsets (member i)) (get_local_idx (groups r))) (range 0 (size (groups r)))

    -- The offsets of the members start at row 0 and climb, and the strings of the rows for this rank
    -- are in order.
    pub record AreOrdered : Type 0 where
      pub starts : (i : ℕ) → i < size (groups r) → get_or (offsets (member i)) 0 0 ≡ 0
      pub climbs :
          (i : ℕ)
          → i < size (groups r)
          → (j : ℕ) → j < size (groups r)
          → get_or (offsets (member i)) j 0 ≤ get_or (offsets (member i)) (j + 1) 0
      pub strings :
          (i : ℕ)
          → i < size (groups r)
          → (j : ℕ) → first_row i ≤ j
          → j < end_row i
          → get_or (children (member i)) j 0 ≤ get_or (children (member i)) (j + 1) 0

    length_sizes :
        (i : ℕ)
        → length (string_sizes (first_row i) (end_row i) (columns (member i)))
          ≡ end_row i - first_row i
    unfolding string_sizes
    length_sizes i = length-map _ _ ∙ length-range (first_row i) (end_row i - first_row i)

    row_counts_is :
        row_counts
        ≡ map
            (λ i. length (string_sizes (first_row i) (end_row i) (columns (member i))))
            (range 0 (size (groups r)))
    row_counts_is = map-range_ext _ _ 0 (size (groups r)) (λ i _ _. sym (length_sizes i))

    length-received_sizes : length received_sizes ≡ sum row_counts
    length-received_sizes = length-flat_map _ (size (groups r)) 0 ∙ ap sum (sym row_counts_is)

    module _ (ordered : AreOrdered) where
      sum_of_received :
          (i : ℕ)
          → i < size (groups r)
          → sum (string_sizes (first_row i) (end_row i) (columns (member i)))
            ≡ get_or (children (member i)) (end_row i) 0
              - get_or (children (member i)) (first_row i) 0
      unfolding string_sizes
      sum_of_received i h =
          (sum_of_sizes (children (member i)) (end_row i - first_row i) (first_row i) (λ j p q.
            ordered.strings i h j p
              (omega (arith, q, ordered.climbs i h (get_local_idx (groups r)) c.me_in)))).1
          ∙ ap
              (λ j. get_or (children (member i)) j 0 - get_or (children (member i)) (first_row i) 0)
              (omega (arith, ordered.climbs i h (get_local_idx (groups r)) c.me_in))

      up_to :
          (k : ℕ)
          → k ≤ size (groups r)
          → sum (take (sum (take k row_counts)) received_sizes) ≡ sum (take k (characters columns))
      up_to k h =
          ap (λ v. sum (take (sum (take k v)) received_sizes)) row_counts_is
          ∙ sum_of_pieces _ (size (groups r)) 0 k h
          ∙ ap (λ v. sum (take k v))
              (map-range_ext _ _ 0 (size (groups r)) (λ i _ q. sum_of_received i (omega arith)))

      offsets_made :
          (room : List ℕ)
          → length room ≡ length received_sizes + 1
          → offsets_child
              (string_offsets (string_column (length received_sizes) room) received_sizes)
            ≡ offsets_of 0 received_sizes
      unfolding string_offsets
      offsets_made room fits =
          ap (λ v. write_at (write_at room 1 (partial_sum 0 v)) 0 (0 ∷ []))
            (take_all (length received_sizes) received_sizes (omega arith))
          ∙ written room received_sizes fits

      -- What member `i` has to send of its sizes to this rank.
      sizes_from : ℕ → List ℕ
      sizes_from i =
          rows_at (sizes_to_send (offsets (member i)) (columns (member i))) (offsets (member i))
            (get_local_idx (groups r))

      sizes_arrive :
          (x : Exchange ℕ)
          → x.all_to_all groups (λ k. sizes_to_send (offsets k) (columns k)) offsets r
            ≡ some received_sizes
      unfolding sizes_from
      sizes_arrive x =
          x.gathers groups (λ k. sizes_to_send (offsets k) (columns k)) offsets r c
            (λ i h.
              Splits-sizes_to_send (size (groups r)) (offsets (member i))
                (sized (member i) ∙ ap (λ n. n + 1) (c.same_size i h)) (ordered.starts i h)
                (ordered.climbs i h) (nrows (member i)) (children (member i)))
          ∙ ap some (
              flat_map-range_ext sizes_from _ 0 (size (groups r)) (λ i _ h.
                sizes_to_send_lem (size (groups r)) (offsets (member i))
                  (sized (member i) ∙ ap (λ n. n + 1) (c.same_size i (omega arith)))
                  (ordered.starts i (omega arith)) (ordered.climbs i (omega arith))
                  (nrows (member i)) (children (member i)) (get_local_idx (groups r)) c.me_in))

      -- If the groups fit together, each rank has an offset for each member and one more, the offsets
      -- of the members start at row 0 and climb, the strings of the rows for this rank are in order, and
      -- the new column has a place for each offset, then the exchanges of the offsets, of the offsets of
      -- the strings and, as the rows of a column of their own, of the sizes to send succeed, the buffer
      -- for the sizes of the strings has the length of what is received, and the offsets made of the
      -- received sizes have, at the row where the part of a member starts or the last one ends, the
      -- offset in `string_recv_offsets`, at which its characters are received.
      pub received_strings :
          (x : Exchange ℕ) (junk : ℕ) (room : List ℕ) (k : ℕ)
          → length room ≡ length received_sizes + 1
          → k ≤ size (groups r)
          → (recv_offsets : List ℕ) × (string_recv_offsets : List ℕ) × (communicate_sizes mpi groups
                offsets r
              ≡ some recv_offsets)
            × (gather_column mpi groups columns offsets r (columns r)
                ≡ some (at_offsets r (columns r), string_recv_offsets))
            × (x.all_to_all groups (λ k. sizes_to_send (offsets k) (columns k)) offsets r
                ≡ some received_sizes)
            × (length (sizes_buffer junk recv_offsets (columns r)) ≡ length received_sizes)
            × (get_or
                  (offsets_child
                    (string_offsets (string_column (length received_sizes) room) received_sizes))
                  (get_or recv_offsets k 0)
                  0
                ≡ get_or string_recv_offsets k 0)
      received_strings x junk room k fits h = (
        offsets_of 0 row_counts,
        offsets_of 0 (characters columns),
        communicate_sizes_lem mpi groups offsets r c,
        gather_column_lem columns (columns r),
        sizes_arrive x,
        length-replicate (last_or (offsets_of 0 row_counts) 0) junk
            ∙ omega (arith, last_or-offsets_of 0 row_counts 0, length-received_sizes),
        ap (λ v. get_or v (get_or (offsets_of 0 row_counts) k 0) 0) (offsets_made room fits)
            ∙ ap (λ j. get_or (offsets_of 0 received_sizes) j 0) row_at
            ∙ get_or-offsets_of 0 received_sizes (sum (take k row_counts)) inside
            ∙ ap (λ v. 0 + v) (up_to k h)
            ∙ sym (
                get_or-offsets_of 0 (characters columns) k (
                  omega (
                    arith,
                    length-map characters_of (range 0 (size (groups r))),
                    length-range 0 (size (groups r)),
                  ))),
      )
        where
          characters_of : ℕ → ℕ
          characters_of i =
              get_or (offsets_child (columns (member i))) (end_row i) 0
              - get_or (offsets_child (columns (member i))) (first_row i) 0

          rows_known : k ≤ length row_counts
          rows_known = omega (
            arith,
            length-map (λ i. diffs (offsets (member i)) (get_local_idx (groups r)))
                (range 0 (size (groups r))),
            length-range 0 (size (groups r)),
          )

          row_at : get_or (offsets_of 0 row_counts) k 0 ≡ sum (take k row_counts)
          row_at = get_or-offsets_of 0 row_counts k rows_known ∙ omega arith

          inside : sum (take k row_counts) ≤ length received_sizes
          inside = omega (arith, length-received_sizes, sum-take_below k row_counts)
