-- ===== src/Prelude/Updates.antt =====
-- Entries of a list after an update, and entries that are not there.
use Prim.Native.Nat.{ℕ, zero, suc, ◌≤◌}
use mathlib.Core.Path.{◌≡◌, refl, ap}
use mathlib.Core.Logic.{◌⊎◌, inl, inr}
use mathlib.Core.List.{List, [], ◌∷◌}
use native.Mathlib.Omega.{arith}
use distributed_join.Prelude.Lists.{length, get_or, set, replicate}

module _ {A : Type 0} where
  pub get_or-set_cases :
      (xs : List A) (i : ℕ) (v : A) (j : ℕ) (d w : A)
      → get_or (set xs i v) j d ≡ w
      → ((j ≡ i) × (v ≡ w)) ⊎ (get_or xs j d ≡ w)
  get_or-set_cases [] i v j d w e = inr e
  get_or-set_cases (x ∷ xs) zero v zero d w e = inl (refl, e)
  get_or-set_cases (x ∷ xs) zero v (suc j) d w e = inr e
  get_or-set_cases (x ∷ xs) (suc i) v zero d w e = inr e
  get_or-set_cases (x ∷ xs) (suc i) v (suc j) d w e = elim (get_or-set_cases xs i v j d w e) [
    | inl (same, new) ↦ inl (ap suc same, new)
    | inr old ↦ inr old
  ]

  pub get_or-set_default :
      (xs : List A) (i j : ℕ) (d : A) → get_or xs j d ≡ d → get_or (set xs i d) j d ≡ d
  get_or-set_default [] i j d e = e
  get_or-set_default (x ∷ xs) zero zero d e = refl
  get_or-set_default (x ∷ xs) zero (suc j) d e = e
  get_or-set_default (x ∷ xs) (suc i) zero d e = e
  get_or-set_default (x ∷ xs) (suc i) (suc j) d e = get_or-set_default xs i j d e

  pub get_or-set_cleared : (xs : List A) (i : ℕ) (d : A) → get_or (set xs i d) i d ≡ d
  get_or-set_cleared [] i d = refl
  get_or-set_cleared (x ∷ xs) zero d = refl
  get_or-set_cleared (x ∷ xs) (suc i) d = get_or-set_cleared xs i d

  pub get_or_beyond : (xs : List A) (i : ℕ) (d : A) → length xs ≤ i → get_or xs i d ≡ d
  get_or_beyond [] i d h = refl
  get_or_beyond (x ∷ xs) zero d h = absurd (omega arith)
  get_or_beyond (x ∷ xs) (suc i) d h = get_or_beyond xs i d (omega arith)

  pub get_or-replicate : (n i : ℕ) (d : A) → get_or (replicate n d) i d ≡ d
  get_or-replicate zero i d = refl
  get_or-replicate (suc n) zero d = refl
  get_or-replicate (suc n) (suc i) d = get_or-replicate n i d
