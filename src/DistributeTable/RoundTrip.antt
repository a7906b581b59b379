-- ===== src/DistributeTable/RoundTrip.antt =====
-- What `distribute_table` gives each rank, and that `collect_tables` undoes it.
use distributed_join.Prelude.{
  ℕ, zero, suc, ◌+◌, ◌*◌, ◌<◌, ◌≡◌, sym, ap, ap₂, refl, true, ltb, ◌∙◌, some, map, arith, length,
  get_or, sum, length-map, length-replicate, some_inj,
}
use distributed_join.Prelude.Ranges.{
  range, flat_map, get_or-map, map-get_or-range, map-range_ext, map_self, flat_map-range_ext,
  each-range,
}
use distributed_join.Prelude.Segments.{offsets_of, last_or, last_or-offsets_of}
use distributed_join.Communicator.{Transport, ◌>>=◌}
use distributed_join.DistributeTable.{
  get_local_table_size, start_idx, Column, Table, Mpi, no_column, type_before, broadcast_type,
  distribute_table, collect_tables,
}
use distributed_join.DistributeTable.Sizes.{start_idx-suc, start_idx-zero, start_idx_end}
use distributed_join.DistributeTable.Columns.{part, length-part, parts_cover, distribute_cols-part}
use distributed_join.DistributeTable.Collect.{collect_col_all}

sum_sizes :
    (g p n i : ℕ)
    → i + n ≡ p
    → start_idx g i p + sum (map (λ k. get_local_table_size g k p) (range i n)) ≡ start_idx g p p
sum_sizes g p zero i e =
    let at : start_idx g i p ≡ start_idx g p p = ap (λ k. start_idx g k p) (omega arith) in
    omega arith
sum_sizes g p (suc n) i e =
    omega (arith, start_idx-suc g i p (omega arith), sum_sizes g p n (suc i) (omega arith))

abbrev pub column_at : {A : Type 0} → Table A → ℕ → Column A
column_at {A} table i = get_or table.columns i (no_column A)

module _ {A : Type 0} (size_of : ℕ → ℕ) where
  -- Every column holds the table's rows.
  abbrev pub IsTable : Table A → Type 0
  IsTable table =
      (i : ℕ)
      → i < length table.columns
      → length (column_at table i).head ≡ table.num_rows * size_of (column_at table i).dtype.id

  -- The rows of rank `r` of a column. Only the root has the scale of its type.
  abbrev pub local_column : ℕ → ℕ → ℕ → Column A → Column A
  local_column g p r c = record {
    dtype = record (type_before c.dtype r) { id = c.dtype.id };
    head = part c.head g (size_of c.dtype.id) p r;
  }

  -- The rows of rank `r`.
  abbrev pub local_table : Table A → ℕ → ℕ → Table A
  local_table table p r = record {
    num_rows = get_local_table_size table.num_rows r p;
    columns = map (local_column table.num_rows p r) table.columns;
  }

abbrev pub collected_column : {A : Type 0} → (ℕ → Table A) → ℕ → ℕ → Column A
collected_column tables p i = record {
  dtype = (column_at (tables 0) i).dtype;
  head = flat_map (λ k. (column_at (tables k) i).head) (range 0 p);
}

abbrev pub collected : {A : Type 0} → (ℕ → Table A) → ℕ → Table A
collected tables p = record {
  num_rows = sum (map (λ k. (tables k).num_rows) (range 0 p));
  columns = map (collected_column tables p) (range 0 (length (tables 0).columns));
}

module _ {A : Type 0} (t : Transport A) (mpi : Mpi) (size_of : ℕ → ℕ) (junk : A) where
  -- For a table whose columns hold its rows and a rank of the world, `distribute_table` gives the rank
  -- its consecutive rows of every column of the root's table. The root has the types of its columns,
  -- and another rank their numbers, with the scale 0 in place of that of a decimal type.
  pub distribute_table_lem :
      (global : Table A) (p r : ℕ)
      → IsTable size_of global
      → r < p
      → distribute_table t mpi size_of junk global p r ≡ some (local_table size_of global p r)
  unfolding distribute_table broadcast_type
  distribute_table_lem global p r whole h = simp mpi.bcast_root (
      ap
        (λ o. o >>= λ columns.
          some (record { num_rows = get_local_table_size global.num_rows r p; columns = columns }))
        (each-range _ (λ i. local_column size_of global.num_rows p r (column_at global i)) 0
            (length global.columns)
            (λ k _ q.
              ap
                (λ o. o >>= λ head. some (record {
                  dtype = record (type_before (column_at global k).dtype r) {
                    id = (column_at global k).dtype.id;
                  };
                  head = head;
                }))
                (distribute_cols-part (column_at global k).head global.num_rows
                  (size_of (column_at global k).dtype.id) p (whole k (omega arith)) t _ r h
                  (length-replicate _ junk)))
          ∙ ap some (
              map-get_or-range (local_column size_of global.num_rows p r) (no_column A)
                global.columns)))

  -- If there is a rank, and each rank has the columns of the root, whose items have the widths of
  -- the root's and hold the rank's rows, then the root collects the rows of all ranks, in the order
  -- of the ranks.
  pub collect_tables_lem :
      (tables : ℕ → Table A) (p : ℕ)
      → 0 < p
      → ((k i : ℕ)
          → k < p
          → i < length (tables 0).columns
          → (i < length (tables k).columns)
            × (size_of (column_at (tables k) i).dtype.id
                ≡ size_of (column_at (tables 0) i).dtype.id)
            × (length (column_at (tables k) i).head
                ≡ (tables k).num_rows * size_of (column_at (tables 0) i).dtype.id))
      → collect_tables t mpi size_of junk tables p 0 ≡ some (some (collected tables p))
  unfolding collect_tables
  collect_tables_lem tables p h alike = rw (mpi.gather_all (λ k. (tables k).num_rows) p) (
      ap
        (λ o. o >>= λ columns. some (
          some (record {
            num_rows = last_or (offsets_of 0 (map (λ k. (tables k).num_rows) (range 0 p))) 0;
            columns = columns;
          })))
        (each-range _ (collected_column tables p) 0 (length (tables 0).columns) λ i _ q.
          ap
            (λ o.
              o >>= λ head. some (record { dtype = (column_at (tables 0) i).dtype; head = head }))
            (collect_col_all (λ r. (column_at (tables r) i).head) (λ r. (tables r).num_rows)
              (size_of (column_at (tables 0) i).dtype.id) p (λ k b. (alike k i b (omega arith)).2) t
              junk h (λ k. ltb i (length (tables k).columns))
              (λ k. size_of (column_at (tables k) i).dtype.id)
              (λ k b. is_column i (length (tables k).columns) (alike k i b (omega arith)).0)
              (λ k b. (alike k i b (omega arith)).1)))
      ∙ ap (λ (n : ℕ). some (some (record (collected tables p) { num_rows = n })))
          (last_or-offsets_of 0 (map (λ k. (tables k).num_rows) (range 0 p)) 0 ∙ omega arith))
    where
      is_column : (i n : ℕ) → i < n → ltb i n ≡ true
      is_column i n h = ground arith

  -- Distributing a table and collecting it gives the table to the root.
  pub collect-distribute :
      (global : Table A) (p : ℕ) (tables : ℕ → Table A)
      → 0 < p
      → IsTable size_of global
      → ((r : ℕ) → r < p → distribute_table t mpi size_of junk global p r ≡ some (tables r))
      → collect_tables t mpi size_of junk tables p 0 ≡ some (some global)
  collect-distribute global p tables h whole got =
      collect_tables_lem tables p h alike
      ∙ ap₂ (λ n columns. some (some (record { num_rows = n; columns = columns }))) rows
          (ap (λ n. map (collected_column tables p) (range 0 n)) count
            ∙ map-range_ext (collected_column tables p) (column_at global) 0 (length global.columns)
                (λ i _ q. column i (omega arith))
            ∙ map-get_or-range (λ c. c) (no_column A) global.columns
            ∙ map_self global.columns)
    where
      tables_eq : (r : ℕ) → r < p → tables r ≡ local_table size_of global p r
      tables_eq r b = some_inj _ _ (sym (got r b) ∙ distribute_table_lem global p r whole b)

      count : length (tables 0).columns ≡ length global.columns
      count =
          ap (λ (u : Table A). length u.columns) (tables_eq 0 h)
          ∙ length-map (local_column size_of global.num_rows p 0) global.columns

      column_eq :
          (k i : ℕ)
          → k < p
          → i < length global.columns
          → column_at (tables k) i ≡ local_column size_of global.num_rows p k (column_at global i)
      column_eq k i b q =
          ap (λ (u : Table A). column_at u i) (tables_eq k b)
          ∙ get_or-map (local_column size_of global.num_rows p k) global.columns i (no_column A)
              (no_column A) q

      alike :
          (k i : ℕ)
          → k < p
          → i < length (tables 0).columns
          → (i < length (tables k).columns)
            × (size_of (column_at (tables k) i).dtype.id
                ≡ size_of (column_at (tables 0) i).dtype.id)
            × (length (column_at (tables k) i).head
                ≡ (tables k).num_rows * size_of (column_at (tables 0) i).dtype.id)
      alike k i b q = (
        omega (
          arith,
          ap (λ (u : Table A). length u.columns) (tables_eq k b),
          length-map (local_column size_of global.num_rows p k) global.columns,
          count,
        ),
        ap (λ (c : Column A). size_of c.dtype.id) (column_eq k i b (omega (arith, count)) ∙ refl)
            ∙ ap (λ (c : Column A). size_of c.dtype.id)
                (sym (column_eq 0 i h (omega (arith, count)))),
        ap₂ (λ (c : Column A) (d : Column A). length c.head)
              (column_eq k i b (omega (arith, count))) (column_eq 0 i h (omega (arith, count)))
            ∙ length-part (column_at global i).head global.num_rows
                (size_of (column_at global i).dtype.id) p (whole i (omega (arith, count))) k b
            ∙ ap₂ (λ (u : Table A) (c : Column A). u.num_rows * size_of c.dtype.id)
                (sym (tables_eq k b)) (sym (column_eq 0 i h (omega (arith, count)))),
      )

      rows : sum (map (λ k. (tables k).num_rows) (range 0 p)) ≡ global.num_rows
      rows =
          ap sum (
            map-range_ext (λ k. (tables k).num_rows) (λ k. get_local_table_size global.num_rows k p)
              0 p (λ k _ q. ap (λ (u : Table A). u.num_rows) (tables_eq k (omega arith))))
          ∙ omega (
            arith,
            sum_sizes global.num_rows p p 0 (omega arith),
            start_idx-zero global.num_rows p,
            start_idx_end global.num_rows p h,
          )

      column :
          (i : ℕ) → i < length global.columns → collected_column tables p i ≡ column_at global i
      column i q =
          ap₂ (λ d c. record { dtype = d; head = c })
            (ap (λ (c : Column A). c.dtype) (column_eq 0 i h q))
            (flat_map-range_ext _
                (λ k.
                  part (column_at global i).head global.num_rows
                    (size_of (column_at global i).dtype.id) p k)
                0 p (λ k _ b. ap (λ (c : Column A). c.head) (column_eq k i (omega arith) q))
              ∙ parts_cover (column_at global i).head global.num_rows
                  (size_of (column_at global i).dtype.id) p (whole i q) h)
