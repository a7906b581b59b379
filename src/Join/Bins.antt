-- ===== src/Join/Bins.antt =====
-- The inner join of two tables, bin by bin and in any order of the rows.
use distributed_join.Prelude.{
  ℕ, ◌<◌, ◌≡◌, refl, sym, ap, ◌∙◌, arith, Bool, true, false, List, [], ◌∷◌, ◌++◌, ◌==◌,
  if◌then◌else◌, Bool-cases, if_true, if_false, inl, inr,
}
use distributed_join.Prelude.Ranges.{range, flat_map}
use distributed_join.Prelude.Perms.{
  keep, flat_map_none, same-Perm, flat_map-Perm, flat_map-Perm_each, flat_map-append-Perm,
  flat_map-range_single,
}
use distributed_join.Join.{join}
use mathlib.Core.List.{Perm}
use mathlib.Core.List as List

module _ {L R : Type 0} (matches : L → R → Bool) where
  pub join-Perm :
      (ls ls' : List L) (rs rs' : List R)
      → Perm ls ls'
      → Perm rs rs'
      → Perm (join matches ls rs) (join matches ls' rs')
  join-Perm ls ls' rs rs' p q = List.Perm.trans (flat_map-Perm _ ls ls' p) (
      flat_map-Perm_each _ _ ls'
        (λ l. flat_map-Perm (λ r. if matches l r then (l, r) ∷ [] else []) rs rs' q))

  pub join_empty : (ls : List L) → join matches ls [] ≡ []
  join_empty ls = flat_map_none ls

  -- The rows of the other table that match a row.
  abbrev row : L → List R → List (L × R)
  row l rs = flat_map (λ r. if matches l r then (l, r) ∷ [] else []) rs

  module _ (n : ℕ) (bin_left : L → ℕ) (bin_right : R → ℕ) (in_range : (l : L) → bin_left l < n)
      (same_bin : (l : L) (r : R) → matches l r ≡ true → bin_left l ≡ bin_right r) where
    abbrev kept_left : ℕ → List L → List L
    kept_left i = keep (λ l. bin_left l == i)

    abbrev kept_right : ℕ → List R → List R
    kept_right i = keep (λ r. bin_right r == i)

    no_match : (l : L) (r : R) → (bin_right r == bin_left l) ≡ false → matches l r ≡ false
    no_match l r other = elim (Bool-cases (matches l r)) [
      | inl yes_match ↦ absurd (apart (same_bin l r yes_match) other)
      | inr e ↦ e
    ]
      where
        apart : {a b : ℕ} → a ≡ b → (b == a) ≡ false → ⊥
        apart {a} {b} e f = ground arith

    -- A row matches in its own bin only.
    row_of_bin : (l : L) (rs : List R) → row l (kept_right (bin_left l) rs) ≡ row l rs
    row_of_bin l [] = refl
    row_of_bin l (r ∷ rs) = elim (Bool-cases (bin_right r == bin_left l)) [
      | inl same ↦
          ap (λ v. row l (v ++ kept_right (bin_left l) rs)) (if_true (r ∷ []) [] same)
          ∙ ap (λ v. (if matches l r then (l, r) ∷ [] else []) ++ v) (row_of_bin l rs)
      | inr other ↦
          ap (λ v. row l (v ++ kept_right (bin_left l) rs)) (if_false (r ∷ []) [] other)
          ∙ row_of_bin l rs
          ∙ ap (λ v. v ++ row l rs) (sym (if_false ((l, r) ∷ []) [] (no_match l r other)))
    ]

    first_row :
        (l : L) (ls : List L) (rs : List R) (i : ℕ)
        → join matches (kept_left i (l ∷ ls)) rs
          ≡ (if bin_left l == i then row l rs else []) ++ join matches (kept_left i ls) rs
    first_row l ls rs i = elim (Bool-cases (bin_left l == i)) [
      | inl same ↦
          ap (λ v. join matches (v ++ kept_left i ls) rs) (if_true (l ∷ []) [] same)
          ∙ ap (λ v. v ++ join matches (kept_left i ls) rs) (sym (if_true (row l rs) [] same))
      | inr other ↦
          ap (λ v. join matches (v ++ kept_left i ls) rs) (if_false (l ∷ []) [] other)
          ∙ ap (λ v. v ++ join matches (kept_left i ls) rs) (sym (if_false (row l rs) [] other))
    ]

    -- The bins together have the pairs of the whole join.
    pub join_bins :
        (ls : List L) (rs : List R)
        → Perm
            (flat_map (λ i. join matches (kept_left i ls) (kept_right i rs)) (range 0 n))
            (join matches ls rs)
    join_bins [] rs = same-Perm (flat_map_none (range 0 n))
    join_bins (l ∷ ls) rs =
        List.Perm.trans
          (flat_map-Perm_each _ _ (range 0 n) (λ i. same-Perm (first_row l ls (kept_right i rs) i)))
          (List.Perm.trans
            (flat_map-append-Perm (λ i. if bin_left l == i then row l (kept_right i rs) else [])
              (λ i. join matches (kept_left i ls) (kept_right i rs)) (range 0 n))
            (List.Perm.append
              (same-Perm (
                flat_map-range_single (λ i. row l (kept_right i rs)) (bin_left l) 0 n (omega arith)
                  (omega (arith, in_range l))
                ∙ row_of_bin l rs))
              (join_bins ls rs)))
