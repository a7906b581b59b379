-- ===== src/Tests/Lottery.antt =====
-- Two threads draw three keys from a lottery of four numbers.
use distributed_join.Prelude.{
  ℕ, ◌%◌, ◌<◌, ◌≡◌, refl, arith, true, Bool, none, some, List, [], ◌∷◌, ◌++◌, length, get_or,
  replicate, ◌==◌,
}
use distributed_join.GenerateDataset.{
  init_build_tbl, interleaved, launched, contains, left_in_lottery, init_probe_tbl,
  generate_input_tables,
}
use distributed_join.GenerateDataset.Unique.{after, unique_keys}
use distributed_join.GenerateDataset.Tables.{generated_tables, too_few_lots}
use native.Mathlib.Nat.{mod-lt}

-- Every thread draws the same lot.
abbrev drawn : ℕ → ℕ → ℕ
drawn idx m = 1 % m

draws_inside : (idx : ℕ) → drawn idx 4 < 4
draws_inside idx = omega arith

-- Both threads read the lot 1, and the second one takes it.
abbrev turns : List ℕ
turns = 0 ∷ 1 ∷ 0 ∷ 1 ∷ 1 ∷ 0 ∷ 0 ∷ 0 ∷ []

two_keys : (after 3 4 3 2 drawn turns).build_tbl ≡ some 2 ∷ some 1 ∷ none ∷ []
unfolding interleaved init_build_tbl launched
two_keys = refl

first_key : get_or (after 3 4 3 2 drawn turns).build_tbl 0 none ≡ some 2
unfolding interleaved init_build_tbl launched
first_key = refl

abbrev first_slot : ℕ
first_slot = 0

unique_keys_example :
    (first_slot ≡ first_slot) × (2 < 4) × (get_or (after 3 4 3 2 drawn turns).lottery 2 none ≡ none)
unique_keys_example = unique_keys 3 4 3 2 drawn draws_inside turns 0 0 2 first_key first_key

-- Even indices are to be found in the build table.
abbrev even : ℕ → Bool
even idx = idx % 2 == 0

draws_below : (idx m : ℕ) → 0 < m → drawn idx m < m
draws_below idx m h = mod-lt 1 {m = m} h

-- The first thread goes on with the slot 2, where it finds the lot 3.
tables_made :
    generate_input_tables 3 4 100 3 2 true drawn even drawn (turns ++ replicate 8 0)
    ≡ some (2 ∷ 1 ∷ 3 ∷ [], 1 ∷ 0 ∷ 1 ∷ 0 ∷ [])
unfolding generate_input_tables interleaved init_build_tbl launched left_in_lottery init_probe_tbl
tables_made = refl

generated_tables_example :
    (more build_tbl probe_tbl : List ℕ) × (generate_input_tables 3 4 100 3 2 true drawn even drawn
        (turns ++ more)
      ≡ some (build_tbl, probe_tbl))
    × (length build_tbl ≡ 3)
    × (length probe_tbl ≡ 4)
    × ((j k : ℕ) → j < 3 → k < 3 → get_or build_tbl j 0 ≡ get_or build_tbl k 0 → j ≡ k)
    × ((idx : ℕ) → idx < 4 → contains (get_or probe_tbl idx 0) build_tbl ≡ even idx)
generated_tables_example =
    generated_tables 3 4 100 3 2 drawn even drawn (omega arith) (omega arith) (omega arith)
      draws_inside draws_below turns

draws_of_two : (idx : ℕ) → drawn idx 2 < 2
draws_of_two idx = omega arith

too_few_lots_example : generate_input_tables 3 4 100 1 2 true drawn even drawn turns ≡ none
too_few_lots_example =
    too_few_lots 3 4 100 1 2 drawn even drawn (omega arith) (omega arith) draws_of_two turns
