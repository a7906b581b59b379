-- ===== src/StringsColumn.antt =====
-- strings_column.cu: the sizes and the offsets of columns of strings, and their communication.
pub mod Sizes
pub mod Gathered
pub mod Sent
use distributed_join.Prelude.{
  ℕ, zero, suc, ◌+◌, ◌-◌, ◌≡◌, refl, Option, some, List, [], ◌∷◌, map, length, get_or, take,
  replicate, ◌>>=◌,
}
use distributed_join.Prelude.Ranges.{range, each}
use distributed_join.Prelude.Segments.{partial_sum, last_or, diffs}
use distributed_join.Prelude.Slices.{write_at}
use distributed_join.Group.{CommunicationGroup, size}
use distributed_join.Communicator.{Transport}
use distributed_join.AllToAll.{communicate_sizes}

-- A column as this code sees it: of a string column the number of rows and the offsets.
pub data Column : Type 0 where
  fixed_width : Column
  string_column : ℕ → List ℕ → Column

-- The offsets of a column do not fall, so no size is negative.
unfoldable pub string_sizes : ℕ → ℕ → Column → List ℕ
string_sizes begin end fixed_width = []
string_sizes begin end (string_column nrows offsets) =
    map (diffs offsets) (range begin (end - begin))

unfoldable pub calculate_string_sizes_from_offsets : List Column → ℕ → ℕ → List (List ℕ)
calculate_string_sizes_from_offsets input_table begin end = map (string_sizes begin end) input_table

-- `string_sizes_to_send` of one column, as the constructor of `AllToAllCommunicator` calculates it.
unfoldable pub sizes_to_send : List ℕ → Column → List ℕ
sizes_to_send offsets column = string_sizes (get_or offsets 0 0) (last_or offsets 0) column

-- The scan writes from the second offset on, and the first one is set to 0.
unfoldable pub string_offsets : Column → List ℕ → Column
string_offsets fixed_width input_sizes = fixed_width
string_offsets (string_column nrows offsets) input_sizes =
    string_column nrows
      (write_at (write_at offsets 1 (partial_sum 0 (take nrows input_sizes))) 0 (0 ∷ []))

unfoldable pub calculate_string_offsets_from_sizes : List Column → List (List ℕ) → List Column
calculate_string_offsets_from_sizes [] input_sizes = []
calculate_string_offsets_from_sizes (column ∷ columns) [] =
    string_offsets column [] ∷ calculate_string_offsets_from_sizes columns []
calculate_string_offsets_from_sizes (column ∷ columns) (sizes ∷ input_sizes) =
    string_offsets column sizes ∷ calculate_string_offsets_from_sizes columns input_sizes

-- The child 0 of a column of strings.
abbrev pub offsets_child : Column → List ℕ
offsets_child fixed_width = []
offsets_child (string_column nrows offsets) = offsets

-- `thrust::gather`, into a vector of zeros.
unfoldable pub gathered_offsets : CommunicationGroup → List ℕ → Column → List ℕ
gathered_offsets comm_group offsets column =
    write_at (replicate (size comm_group + 1) 0) 0
      (map (λ row. get_or (offsets_child column) row 0) offsets)

-- `string_send_offsets` and `string_recv_offsets` of one column, on rank `r`, over the column and
-- the offsets of each rank. The columns have the same type on all ranks.
unfoldable pub gather_column :
    Transport ℕ
    → (ℕ → CommunicationGroup)
    → (ℕ → Column)
    → (ℕ → List ℕ)
    → ℕ
    → Column
    → Option (List ℕ × List ℕ)
gather_column mpi groups columns offsets r fixed_width = some ([], [])
gather_column mpi groups columns offsets r (string_column nrows child) = do
  let string_send_offsets = λ (k : ℕ). gathered_offsets (groups k) (offsets k) (columns k)
  string_recv_offsets ← communicate_sizes mpi groups string_send_offsets r
  some (string_send_offsets r, string_recv_offsets)

unfoldable pub gather_string_offsets :
    Transport ℕ
    → (ℕ → CommunicationGroup)
    → (ℕ → List Column)
    → (ℕ → List ℕ)
    → ℕ
    → Option (List (List ℕ × List ℕ))
gather_string_offsets mpi groups tables offsets r =
    each
      (λ icol.
        gather_column mpi groups (λ k. get_or (tables k) icol fixed_width) offsets r
          (get_or (tables r) icol fixed_width))
      (range 0 (length (tables r)))

-- The buffer for the sizes of one column.
abbrev pub sizes_buffer : ℕ → List ℕ → Column → List ℕ
sizes_buffer junk recv_offsets fixed_width = []
sizes_buffer junk recv_offsets (string_column nrows child) = replicate (last_or recv_offsets 0) junk

unfoldable pub allocate_string_sizes_receive_buffer : ℕ → List Column → List ℕ → List (List ℕ)
allocate_string_sizes_receive_buffer junk input_table recv_offsets =
    map (sizes_buffer junk recv_offsets) input_table
