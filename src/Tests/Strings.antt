-- ===== src/Tests/Strings.antt =====
-- Offsets of columns of strings, their sizes, and their communication.
use distributed_join.Prelude.{
  ℕ, zero, suc, ◌+◌, ◌≡◌, ◌<◌, ◌≤◌, refl, arith, true, some, List, [], ◌∷◌, map, length, get_or,
}
use distributed_join.Prelude.Ranges.{range}
use distributed_join.Prelude.Segments.{partial_sum}
use distributed_join.Prelude.Slices.{write_at}
use distributed_join.Group.{size, get_global_rank, get_local_idx}
use distributed_join.Group.Collective.{IsCollective, made-IsCollective}
use distributed_join.Communicator.{complete, receive}
use distributed_join.AllToAll.{communicate_sizes, communicate_sizes_calls}
use distributed_join.StringsColumn.{
  Column, fixed_width, string_column, calculate_string_sizes_from_offsets, string_sizes,
  sizes_to_send, string_offsets, calculate_string_offsets_from_sizes, offsets_child,
  gathered_offsets, gather_column, gather_string_offsets, sizes_buffer,
}
use distributed_join.StringsColumn.Sizes.{sizes_again}
use distributed_join.StringsColumn.Gathered.{
  string_offsets_of, gather_string_offsets_lem, AreOrdered, at_offsets, received_sizes,
  received_strings,
}
use distributed_join.Compression.{ColumnOptions, CompressionMethod, method, default_options}
use distributed_join.Shuffle.{Exchange, rows_at}
use distributed_join.Shuffle.Filled.{filled}
use distributed_join.Tests.{fifo, pairs, pairs_made, identity_codec}

abbrev output_table : List Column
output_table = fixed_width ∷ string_column 3 (9 ∷ 9 ∷ 9 ∷ 9 ∷ []) ∷ []

sizes_again_example :
    calculate_string_sizes_from_offsets
      (calculate_string_offsets_from_sizes output_table ([] ∷ (4 ∷ 0 ∷ 2 ∷ []) ∷ []))
      0
      3
    ≡ [] ∷ (4 ∷ 0 ∷ 2 ∷ []) ∷ []
sizes_again_example =
    sizes_again 3 output_table ([] ∷ (4 ∷ 0 ∷ 2 ∷ []) ∷ []) (refl, ((refl, refl, refl), tt))

-- The first two rows are for member 0, the last one is for member 1.
abbrev row_offsets : ℕ → List ℕ
row_offsets k = 0 ∷ 2 ∷ 3 ∷ []

abbrev string_child : ℕ → List ℕ
string_child k = 0 ∷ 2 ∷ 5 ∷ 9 ∷ []

rows_sized : (k : ℕ) → length (row_offsets k) ≡ size (pairs k) + 1
unfolding size
rows_sized k = refl

abbrev together : IsCollective pairs 2
together = made-IsCollective pairs 4 2 2 (omega arith) (omega arith) pairs_made

abbrev three_rows : ℕ → ℕ
three_rows k = 3

strings_ordered : AreOrdered fifo pairs row_offsets rows_sized 2 together three_rows string_child
unfolding get_local_idx size
strings_ordered = record { starts = λ i h. refl; climbs = λ i h. climbs; strings = λ i h. in_order }
  where
    climbs : (j : ℕ) → j < 2 → get_or (0 ∷ 2 ∷ 3 ∷ []) j 0 ≤ get_or (0 ∷ 2 ∷ 3 ∷ []) (j + 1) 0
    climbs zero h = omega arith
    climbs (suc zero) h = omega arith
    climbs (suc (suc j)) h = absurd (omega arith)

    in_order :
        (j : ℕ)
        → 2 ≤ j
        → j < 3
        → get_or (0 ∷ 2 ∷ 5 ∷ 9 ∷ []) j 0 ≤ get_or (0 ∷ 2 ∷ 5 ∷ 9 ∷ []) (j + 1) 0
    in_order zero p q = absurd (omega arith)
    in_order (suc zero) p q = absurd (omega arith)
    in_order (suc (suc zero)) p q = omega arith
    in_order (suc (suc (suc j))) p q = absurd (omega arith)

abbrev tables : ℕ → List Column
tables k = fixed_width ∷ string_column 3 (string_child k) ∷ []

gathered_at_2 :
    gather_string_offsets fifo pairs tables row_offsets 2
    ≡ some (([], []) ∷ (0 ∷ 5 ∷ 9 ∷ [], 0 ∷ 4 ∷ 8 ∷ []) ∷ [])
unfolding gather_string_offsets gather_column gathered_offsets communicate_sizes complete
    communicate_sizes_calls size receive get_global_rank partial_sum write_at
gathered_at_2 = refl

gather_string_offsets_example :
    gather_string_offsets fifo pairs tables row_offsets 2
    ≡ some (
        map
          (λ icol.
            string_offsets_of fifo pairs row_offsets rows_sized 2 together
              (λ k. get_or (tables k) icol fixed_width)
              (get_or (tables 2) icol fixed_width))
          (range 0 2))
gather_string_offsets_example =
    gather_string_offsets_lem fifo pairs row_offsets rows_sized 2 together tables

abbrev room : List ℕ
room = 7 ∷ 7 ∷ 7 ∷ []

abbrev sizes_at_2 : List ℕ
sizes_at_2 = received_sizes fifo pairs row_offsets rows_sized 2 together three_rows string_child

two_received : length room ≡ length sizes_at_2 + 1
unfolding size get_local_idx string_sizes
two_received = refl

-- The sizes are not compressed.
abbrev plain : List ColumnOptions
plain = default_options ∷ []

never : (k i : ℕ) → method (get_or plain i default_options) ≡ CompressionMethod.none
never k zero = refl
never k (suc i) = refl

abbrev sizes_exchange : Exchange ℕ
sizes_exchange = filled identity_codec 9 fifo fifo true (λ k. plain) never

abbrev strings : ℕ → Column
strings k = string_column 3 (string_child k)

-- Where the offsets start behind row 0, as those of a later batch do, the sizes to send are those of
-- its rows alone, and the offsets of its parts point behind them.
later_batch :
    (sizes_to_send (2 ∷ 3 ∷ []) (strings 0) ≡ 4 ∷ [])
    × (rows_at (sizes_to_send (2 ∷ 3 ∷ []) (strings 0)) (2 ∷ 3 ∷ []) 0 ≡ [])
unfolding sizes_to_send string_sizes
later_batch = (refl, refl)

received_strings_example :
    (recv_offsets : List ℕ) × (string_recv_offsets : List ℕ) × (communicate_sizes fifo pairs
        row_offsets 2
      ≡ some recv_offsets)
    × (gather_column fifo pairs
          (λ k. string_column 3 (string_child k))
          row_offsets
          2
          (string_column 3 (string_child 2))
        ≡ some (
          at_offsets fifo pairs row_offsets rows_sized 2 together 2
              (string_column 3 (string_child 2)),
          string_recv_offsets,
        ))
    × (sizes_exchange.all_to_all pairs
          (λ k. sizes_to_send (row_offsets k) (strings k))
          row_offsets
          2
        ≡ some sizes_at_2)
    × (length (sizes_buffer 7 recv_offsets (string_column 3 (string_child 2))) ≡ length sizes_at_2)
    × (get_or
          (offsets_child (string_offsets (string_column (length sizes_at_2) room) sizes_at_2))
          (get_or recv_offsets 1 0)
          0
        ≡ get_or string_recv_offsets 1 0)
unfolding size
received_strings_example =
    received_strings fifo pairs row_offsets rows_sized 2 together three_rows string_child
      strings_ordered sizes_exchange 7 room 1 two_received (omega arith)
