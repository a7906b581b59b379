-- ===== src/DistributeTable.antt =====
-- distribute_table.cpp: a table is split over the ranks from the root, and collected there again.
pub mod Sizes
pub mod Columns
pub mod Collect
pub mod RoundTrip
pub mod Missing
use distributed_join.Prelude.{
  ℕ, zero, suc, ◌+◌, ◌-◌, ◌*◌, ◌/◌, ◌%◌, min, ◌≡◌, Bool, Option, none, some, List, [], ◌∷◌, ◌++◌,
  map, ltb, ◌==◌, if◌then◌else◌, length, get_or, replicate,
}
use distributed_join.Prelude.Ranges.{range, flat_map, each}
use distributed_join.Prelude.Segments.{offsets_of, last_or}
use distributed_join.Prelude.Slices.{slice, write_at}
use distributed_join.Communicator.{
  Call, start, stop, send, recv, Transport, Memory, complete, ◌>>=◌,
}

unfoldable pub get_local_table_size : ℕ → ℕ → ℕ → ℕ
get_local_table_size global_table_size mpi_rank mpi_size =
    let local_table_size = global_table_size / mpi_size in
    if ltb mpi_rank (global_table_size % mpi_size) then local_table_size + 1 else local_table_size

-- The first row of the global table that rank `irank` gets, as `distribute_cols` computes it.
unfoldable pub start_idx : ℕ → ℕ → ℕ → ℕ
start_idx global_size irank mpi_size =
    min irank (global_size % mpi_size) + global_size / mpi_size * irank

-- `cudf::data_type`: the type's number, and the scale of a decimal type, given by its 32 bits.
pub record DataType : Type 0 where
  pub id : ℕ
  pub scale : ℕ

-- `data_type{}`, whose number is that of `type_id::EMPTY`.
abbrev pub empty_type : DataType
empty_type = record { id = 0; scale = 0 }

-- A column of a fixed-width type: the type, and the items.
pub record Column (A : Type 0) : Type 0 where
  pub dtype : DataType
  pub head : List A

pub record Table (A : Type 0) : Type 0 where
  pub num_rows : ℕ
  pub columns : List (Column A)

-- MPI: a broadcast from rank 0, and a gather of one number from each of the ranks.
pub record Mpi : Type 0 where
  pub bcast : (ℕ → ℕ) → ℕ → ℕ
  pub bcast_root : (f : ℕ → ℕ) (r : ℕ) → bcast f r ≡ f 0
  pub gather : (ℕ → ℕ) → ℕ → List ℕ
  pub gather_all : (f : ℕ → ℕ) (n : ℕ) → gather f n ≡ map f (range 0 n)

module _ {A : Type 0} where
  -- `distribute_cols` on rank `mpi_rank`: the calls on the communicator.
  unfoldable pub distribute_cols_calls : List A → ℕ → ℕ → ℕ → ℕ → ℕ → List (Call A)
  distribute_cols_calls global_col global_size local_size dtype_size mpi_size zero =
      start
      ∷ (flat_map
            (λ irank.
              send
                (slice global_col (start_idx global_size irank mpi_size * dtype_size)
                  (get_local_table_size global_size irank mpi_size * dtype_size))
                (get_local_table_size global_size irank mpi_size) dtype_size irank
              ∷ [])
            (range 1 (mpi_size - 1))
          ++ stop ∷ [])
  distribute_cols_calls global_col global_size local_size dtype_size mpi_size (suc r) =
      start ∷ recv 0 0 local_size dtype_size 0 ∷ stop ∷ []

  -- The copy on the root rank.
  unfoldable pub fill_root : List A → ℕ → ℕ → ℕ → ℕ → List A → List A
  fill_root global_col global_size dtype_size mpi_size zero local_col =
      write_at local_col 0
        (slice global_col 0 (get_local_table_size global_size 0 mpi_size * dtype_size))
  fill_root global_col global_size dtype_size mpi_size (suc r) local_col = local_col

  unfoldable pub distribute_cols :
      Transport A → List A → ℕ → (ℕ → ℕ) → ℕ → ℕ → (ℕ → List A) → ℕ → Option (List A)
  unfolding distribute_cols_calls fill_root
  distribute_cols t global_col global_size local_size dtype_size mpi_size local_col r = do
    let calls =
        λ (k : ℕ). distribute_cols_calls global_col global_size (local_size k) dtype_size mpi_size k
    let filled = fill_root global_col global_size dtype_size mpi_size r (local_col r)
    m ← complete (calls r) (t.inbox calls r, filled ∷ [])
    some (get_or m.1 0 [])

  -- `collect_tables` on rank `mpi_rank`: the calls for one column.
  unfoldable pub collect_calls : List A → ℕ → List ℕ → ℕ → ℕ → ℕ → List (Call A)
  collect_calls col nrows table_nrows dtype_size mpi_size zero =
      start
      ∷ (flat_map
            (λ irank.
              recv 0 (get_or (offsets_of 0 table_nrows) irank 0 * dtype_size)
                (get_or table_nrows irank 0) dtype_size irank
              ∷ [])
            (range 1 (mpi_size - 1))
          ++ stop ∷ [])
  collect_calls col nrows table_nrows dtype_size mpi_size (suc r) =
      start ∷ send (slice col 0 (nrows * dtype_size)) nrows dtype_size 0 ∷ stop ∷ []

  -- One column of `collect_tables` on the root: the allocated column, the root's rows copied into it,
  -- and the other ranks' rows received behind them. A rank that has no such column, of its own number
  -- of columns, sends nothing for it.
  unfoldable pub collect_col :
      Transport A → A → (ℕ → Bool) → (ℕ → List A) → (ℕ → ℕ) → List ℕ → (ℕ → ℕ) → ℕ → Option (List A)
  unfolding collect_calls
  collect_col t junk has_column col nrows table_nrows dtype_size mpi_size = do
    let calls = λ (k : ℕ).
        if has_column k
        then collect_calls (col k) (nrows k) table_nrows (dtype_size k) mpi_size k
        else []
    let merged = replicate (last_or (offsets_of 0 table_nrows) 0 * dtype_size 0) junk
    let copied = write_at merged 0 (slice (col 0) 0 (get_or table_nrows 0 0 * dtype_size 0))
    m ←
        complete (collect_calls (col 0) (nrows 0) table_nrows (dtype_size 0) mpi_size 0)
          (t.inbox calls 0, copied ∷ [])
    some (get_or m.1 0 [])

abbrev pub no_column : (A : Type 0) → Column A
no_column A = record { dtype = empty_type; head = [] }

-- What a rank gives to a broadcast: the root's value, and elsewhere the -1 that it overwrites,
-- here 0.
abbrev pub on_root : ℕ → ℕ → ℕ
on_root v zero = v
on_root v (suc r) = 0

-- `columns_dtype[icol]` before the broadcast: the root's type, and elsewhere an empty one.
abbrev pub type_before : DataType → ℕ → DataType
type_before dtype zero = dtype
type_before dtype (suc r) = empty_type

-- `size_of` is cudf's width of a type by its number, and `junk` what allocated memory holds.
module _ {A : Type 0} (t : Transport A) (mpi : Mpi) (size_of : ℕ → ℕ) (junk : A) where
  -- The broadcast of a type sends four of its bytes, those of its number.
  unfoldable pub broadcast_type : DataType → ℕ → DataType
  broadcast_type dtype r = record (type_before dtype r) { id = mpi.bcast (on_root dtype.id) r }

  -- `distribute_table` on rank `r`.
  unfoldable pub distribute_table : Table A → ℕ → ℕ → Option (Table A)
  distribute_table global_table mpi_size r = do
    let global_table_size = mpi.bcast (on_root global_table.num_rows)
    let ncols = mpi.bcast (on_root (length global_table.columns)) r
    let columns_dtype =
        λ (icol : ℕ). broadcast_type (get_or global_table.columns icol (no_column A)).dtype r
    let local_size = λ (k : ℕ). get_local_table_size (global_table_size k) k mpi_size
    columns ←
        each
          (λ icol. do
            let width = size_of (columns_dtype icol).id
            head ←
                distribute_cols t (get_or global_table.columns icol (no_column A)).head
                  global_table.num_rows local_size width mpi_size
                  (λ k. replicate (local_size k * width) junk) r
            some (record { dtype = columns_dtype icol; head = head }))
          (range 0 ncols)
    some (record { num_rows = local_size r; columns = columns })

  -- `collect_tables` on rank `r`, over the tables of all ranks: the merged table on the root, and
  -- the null pointer elsewhere.
  unfoldable pub collect_tables : (ℕ → Table A) → ℕ → ℕ → Option (Option (Table A))
  collect_tables tables mpi_size (suc r) = some none
  collect_tables tables mpi_size zero = do
    let table_nrows = mpi.gather (λ k. (tables k).num_rows) mpi_size
    columns ←
        each
          (λ icol. do
            let column = λ (k : ℕ). get_or (tables k).columns icol (no_column A)
            head ←
                collect_col t junk (λ k. ltb icol (length (tables k).columns))
                  (λ k. (column k).head) (λ k. (tables k).num_rows) table_nrows
                  (λ k. size_of (column k).dtype.id) mpi_size
            some (record { dtype = (column 0).dtype; head = head }))
          (range 0 (length (tables 0).columns))
    some (some (record { num_rows = last_or (offsets_of 0 table_nrows) 0; columns = columns }))
