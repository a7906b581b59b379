-- ===== src/StringsColumn/Sent.antt =====
-- The sizes that the constructor of `AllToAllCommunicator` has to send, between two of the offsets.
use distributed_join.Prelude.{
  ℕ, zero, suc, ◌+◌, ◌-◌, ◌≤◌, ◌<◌, ◌≡◌, refl, ap, ap₂, ◌∙◌, arith, List, [], ◌∷◌, map, length,
  get_or, take, length-map,
}
use distributed_join.Prelude.Ranges.{range, length-range}
use distributed_join.Prelude.Segments.{last_or, diffs}
use distributed_join.Prelude.Slices.{slice}
use distributed_join.Shuffle.{rows_at, Splits}
use distributed_join.Shuffle.Rows.{climbs_on}
use distributed_join.StringsColumn.{string_column, string_sizes, sizes_to_send}

take-map-range :
    {A : Type 0} (f : ℕ → A) (m n b : ℕ) → m ≤ n → take m (map f (range b n)) ≡ map f (range b m)
take-map-range f zero n b h = refl
take-map-range f (suc m) zero b h = absurd (omega arith)
take-map-range f (suc m) (suc n) b h = ap (◌∷◌ (f b)) (take-map-range f m n (suc b) (omega arith))

slice-map-range :
    {A : Type 0} (f : ℕ → A) (a m n b : ℕ)
    → a + m ≤ n
    → slice (map f (range b n)) a m ≡ map f (range (b + a) m)
slice-map-range f zero m n b h =
    take-map-range f m n b (omega arith) ∙ ap (λ i. map f (range i m)) (omega arith)
slice-map-range f (suc a) m zero b h = absurd (omega arith)
slice-map-range f (suc a) m (suc n) b h =
    slice-map-range f a m n (suc b) (omega arith) ∙ ap (λ i. map f (range i m)) (omega arith)

last_or-get_or : (n : ℕ) (xs : List ℕ) (d : ℕ) → length xs ≡ n + 1 → last_or xs d ≡ get_or xs n d
last_or-get_or n [] d h = absurd (omega arith)
last_or-get_or zero (x ∷ []) d h = refl
last_or-get_or zero (x ∷ y ∷ xs) d h = absurd (omega arith)
last_or-get_or (suc n) (x ∷ []) d h = absurd (omega arith)
last_or-get_or (suc n) (x ∷ y ∷ xs) d h =
    last_or-get_or n (y ∷ xs) x (omega arith) ∙ get_or_known n (y ∷ xs) (omega arith)
  where
    get_or_known : (i : ℕ) (ys : List ℕ) → i < length ys → get_or ys i x ≡ get_or ys i d
    get_or_known i [] p = absurd (omega arith)
    get_or_known zero (y ∷ ys) p = refl
    get_or_known (suc i) (y ∷ ys) p = get_or_known i ys (omega arith)

-- Offsets for `n` parts, which start at row 0 and climb.
module _ (n : ℕ) (offsets : List ℕ) (sized : length offsets ≡ n + 1)
    (first : get_or offsets 0 0 ≡ 0)
    (climbs : (j : ℕ) → j < n → get_or offsets j 0 ≤ get_or offsets (j + 1) 0) (nrows : ℕ)
    (child : List ℕ) where
  abbrev sizes : List ℕ
  sizes = sizes_to_send offsets (string_column nrows child)

  sizes_are : sizes ≡ map (diffs child) (range 0 (get_or offsets n 0))
  unfolding sizes_to_send string_sizes
  sizes_are =
      ap₂ (λ b e. map (diffs child) (range b (e - b))) first (last_or-get_or n offsets 0 sized)
      ∙ ap (λ m. map (diffs child) (range 0 m)) (omega arith)

  pub Splits-sizes_to_send : Splits n sizes offsets
  Splits-sizes_to_send = record {
    climbs = climbs;
    ends = omega (
      arith,
      ap length sizes_are,
      length-map (diffs child) (range 0 (get_or offsets n 0)),
      length-range 0 (get_or offsets n 0),
    );
  }

  -- The sizes between two of the offsets are those of the rows between them.
  pub sizes_to_send_lem :
      (j : ℕ)
      → j < n
      → rows_at sizes offsets j
        ≡ string_sizes (get_or offsets j 0) (get_or offsets (j + 1) 0) (string_column nrows child)
  unfolding string_sizes
  sizes_to_send_lem j h =
      let e : get_or offsets (j + 1 + (n - (j + 1))) 0 ≡ get_or offsets n 0 =
        ap (λ i. get_or offsets i 0) (omega arith) in
      ap (λ v. slice v (get_or offsets j 0) (diffs offsets j)) sizes_are
      ∙ slice-map-range (diffs child) (get_or offsets j 0) (diffs offsets j) (get_or offsets n 0) 0
          (omega (
            arith,
            climbs j h,
            climbs_on n sizes offsets Splits-sizes_to_send (n - (j + 1)) (j + 1) (omega arith),
          ))
      ∙ ap (λ i. map (diffs child) (range i (diffs offsets j))) (omega arith)
