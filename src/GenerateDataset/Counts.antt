-- ===== src/GenerateDataset/Counts.antt =====
-- Counting what is in an array and what is not.
use native.Mathlib.Nat.{div-add-mod}
use distributed_join.Prelude.{
  ℕ, zero, suc, ◌+◌, ◌*◌, ◌/◌, ◌%◌, ◌<◌, ◌≤◌, ◌≡◌, refl, ap, true, Option, none, some, List, [],
  ◌∷◌, map, length, get_or, set, ltb, replicate, inl, inr, ◌⊎◌, arith, dec_lt,
}
use distributed_join.Prelude.Ranges.{range}
use distributed_join.Prelude.Slices.{mul_mono}

-- The entries that are there, and those that are not.
abbrev pub count_some : List (Option ℕ) → ℕ
count_some [] = 0
count_some (none ∷ xs) = count_some xs
count_some (some x ∷ xs) = suc (count_some xs)

abbrev pub count_none : List (Option ℕ) → ℕ
count_none [] = 0
count_none (none ∷ xs) = suc (count_none xs)
count_none (some x ∷ xs) = count_none xs

pub count_some-set :
    (xs : List (Option ℕ)) (i v : ℕ)
    → get_or xs i none ≡ some v
    → count_some (set xs i none) + 1 ≡ count_some xs
count_some-set [] i v e = absurd (cc e)
count_some-set (none ∷ xs) zero v e = absurd (cc e)
count_some-set (some x ∷ xs) zero v e = omega arith
count_some-set (none ∷ xs) (suc i) v e = count_some-set xs i v e
count_some-set (some x ∷ xs) (suc i) v e = omega (arith, count_some-set xs i v e)

pub count_none-set :
    (xs : List (Option ℕ)) (i v : ℕ)
    → i < length xs
    → get_or xs i none ≡ none
    → count_none (set xs i (some v)) + 1 ≡ count_none xs
count_none-set [] i v h e = absurd (omega arith)
count_none-set (none ∷ xs) zero v h e = omega arith
count_none-set (some x ∷ xs) zero v h e = absurd (cc e)
count_none-set (none ∷ xs) (suc i) v h e = omega (arith, count_none-set xs i v (omega arith) e)
count_none-set (some x ∷ xs) (suc i) v h e = count_none-set xs i v (omega arith) e

pub a_free_lot :
    (xs : List (Option ℕ))
    → 0 < count_some xs
    → (i : ℕ) × (v : ℕ) × (i < length xs) × (get_or xs i none ≡ some v)
a_free_lot [] h = absurd (omega arith)
a_free_lot (some x ∷ xs) h = (0, x, omega arith, refl)
a_free_lot (none ∷ xs) h = let (i, v, inside, e) = a_free_lot xs h in (suc i, v, omega arith, e)

pub an_empty_slot :
    (xs : List (Option ℕ))
    → 0 < count_none xs
    → (i : ℕ) × (i < length xs) × (get_or xs i none ≡ none)
an_empty_slot [] h = absurd (omega arith)
an_empty_slot (none ∷ xs) h = (0, omega arith, refl)
an_empty_slot (some x ∷ xs) h = let (i, inside, e) = an_empty_slot xs h in (suc i, omega arith, e)

pub all_written :
    (xs : List (Option ℕ))
    → count_none xs ≡ 0
    → (i : ℕ) → i < length xs
    → (v : ℕ) × (get_or xs i none ≡ some v)
all_written [] h i p = absurd (omega arith)
all_written (none ∷ xs) h i p = absurd (omega arith)
all_written (some x ∷ xs) h zero p = (x, refl)
all_written (some x ∷ xs) h (suc i) p = all_written xs h i (omega arith)

-- Numbers with the same remainder are a multiple of the modulus apart.
pub next_with_mod : (m i j : ℕ) → 0 < m → i % m ≡ j % m → i < j → i + m ≤ j
next_with_mod m i j pos same h = elim (dec_lt (i / m) (j / m)) [
  | yes above ↦
      omega (
        arith,
        mul_mono (i / m + 1) (j / m) m (omega arith),
        div-add-mod i m,
        div-add-mod j m,
        split,
      )
  | no below ↦ absurd (
      omega
        (arith, mul_mono (j / m) (i / m) m (omega arith), div-add-mod i m, div-add-mod j m, split))
]
  where
    split :
        ((i / m + 1) * m ≡ m * (i / m) + m)
        × ((i / m) * m ≡ m * (i / m))
        × (j / m * m ≡ m * (j / m))
    split = (grind arith, grind arith, grind arith)

pub count_none-replicate : (n : ℕ) → count_none (replicate n none) ≡ n
count_none-replicate zero = refl
count_none-replicate (suc n) = ap suc (count_none-replicate n)

pub count_some-map : (n i : ℕ) → count_some (map some (range i n)) ≡ n
count_some-map zero i = refl
count_some-map (suc n) i = ap suc (count_some-map n (suc i))

pub lot_cases : (o : Option ℕ) → (o ≡ none) ⊎ ((v : ℕ) × (o ≡ some v))
lot_cases none = inl refl
lot_cases (some v) = inr (v, refl)

pub ltb_of_lt : (a b : ℕ) → a < b → ltb a b ≡ true
ltb_of_lt a b h = ground arith
