-- ===== src/StringsColumn/Sizes.antt =====
-- Sizes and offsets of string columns are the reverse of each other.
use distributed_join.Prelude.{
  ℕ, suc, ◌+◌, ◌-◌, ◌≡◌, refl, sym, ap, ap₂, ◌∙◌, arith, List, [], ◌∷◌, ◌++◌, map, length, get_or,
  take, drop, take_all,
}
use distributed_join.Prelude.Ranges.{range, map-range_ext, map-get_or-range}
use distributed_join.Prelude.Segments.{
  partial_sum, length-partial_sum, offsets_of, diffs, diffs-offsets_of,
}
use distributed_join.Prelude.Slices.{write_at, write_at_whole}
use distributed_join.StringsColumn.{
  Column, fixed_width, string_column, string_sizes, calculate_string_sizes_from_offsets,
  string_offsets, calculate_string_offsets_from_sizes,
}

-- The column has `n` rows and offsets for them; a string column has as many sizes, another none.
abbrev pub FitsColumn : ℕ → Column → List ℕ → Type 0
FitsColumn n fixed_width sizes = sizes ≡ []
FitsColumn n (string_column nrows offsets) sizes =
    (nrows ≡ n) × (length offsets ≡ n + 1) × (length sizes ≡ n)

-- Each column has its sizes.
abbrev pub FitsTable : ℕ → List Column → List (List ℕ) → Type 0
FitsTable n [] [] = Unit {0}
FitsTable n [] (sizes ∷ input_sizes) = ⊥
FitsTable n (column ∷ columns) [] = ⊥
FitsTable n (column ∷ columns) (sizes ∷ input_sizes) =
    FitsColumn n column sizes × FitsTable n columns input_sizes

-- The two writes make up the running sums.
pub written :
    (offsets sizes : List ℕ)
    → length offsets ≡ length sizes + 1
    → write_at (write_at offsets 1 (partial_sum 0 sizes)) 0 (0 ∷ []) ≡ offsets_of 0 sizes
unfolding write_at
written [] sizes h = absurd (omega arith)
written (x ∷ offsets) sizes h =
    ap (λ k. 0 ∷ (partial_sum 0 sizes ++ drop k (x ∷ offsets)))
      {x = 1 + length (partial_sum 0 sizes)} {y = suc (0 + length (partial_sum 0 sizes))}
      (omega arith)
    ∙ ap (◌∷◌ 0)
        (write_at_whole offsets (partial_sum 0 sizes) (omega (arith, length-partial_sum 0 sizes)))

column_sizes :
    (n : ℕ) (column : Column) (sizes : List ℕ)
    → FitsColumn n column sizes
    → string_sizes 0 n (string_offsets column sizes) ≡ sizes
unfolding string_sizes string_offsets
column_sizes n fixed_width sizes h = sym h
column_sizes n (string_column nrows offsets) sizes (rows, places, many) =
    ap
      (λ k.
        map (diffs (write_at (write_at offsets 1 (partial_sum 0 (take nrows sizes))) 0 (0 ∷ [])))
          (range 0 k))
      {x = n - 0} {y = n} (omega arith)
    ∙ ap (λ (o : List ℕ). map (diffs o) (range 0 n))
        (ap (λ v. write_at (write_at offsets 1 (partial_sum 0 v)) 0 (0 ∷ []))
            (take_all nrows sizes (omega (arith, rows, many)))
          ∙ written offsets sizes (omega (arith, places, many)))
    ∙ map-range_ext (diffs (offsets_of 0 sizes)) (λ i. get_or sizes i 0) 0 n
        (λ k p q. diffs-offsets_of 0 sizes k (omega (arith, many)))
    ∙ ap (λ k. map (λ i. get_or sizes i 0) (range 0 k)) (sym many)
    ∙ map-get_or-range (λ x. x) 0 sizes
    ∙ map_same sizes
  where
    map_same : (xs : List ℕ) → map (λ x. x) xs ≡ xs
    map_same [] = refl
    map_same (x ∷ xs) = ap (◌∷◌ x) (map_same xs)

-- If each string column of a table of `n` rows has a place for each offset and a size for each row,
-- and the other columns have none, `calculate_string_sizes_from_offsets` for all rows gives back the sizes that
-- `calculate_string_offsets_from_sizes` has made the offsets from.
pub sizes_again :
    (n : ℕ) (output_table : List Column) (input_sizes : List (List ℕ))
    → FitsTable n output_table input_sizes
    → calculate_string_sizes_from_offsets
        (calculate_string_offsets_from_sizes output_table input_sizes)
        0
        n
      ≡ input_sizes
unfolding calculate_string_sizes_from_offsets calculate_string_offsets_from_sizes
sizes_again n [] [] h = refl
sizes_again n [] (s ∷ ss) h = absurd h
sizes_again n (c ∷ cs) [] h = absurd h
sizes_again n (c ∷ cs) (s ∷ ss) (h, hs) = ap₂ ◌∷◌ (column_sizes n c s h) (sizes_again n cs ss hs)
