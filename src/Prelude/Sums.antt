-- ===== src/Prelude/Sums.antt =====
-- Sums of pieces of lists.
use Prim.Native.Nat.{ℕ, zero, suc, ◌+◌, ◌≤◌}
use mathlib.Core.Path.{◌≡◌, refl, ap, ◌∙◌}
use mathlib.Core.List.{List, [], ◌∷◌, ◌++◌, map}
use native.Mathlib.Omega.{arith}
use distributed_join.Prelude.Lists.{length, take, sum, length-append}
use distributed_join.Prelude.Ranges.{range, flat_map}

pub sum-append : (xs ys : List ℕ) → sum (xs ++ ys) ≡ sum xs + sum ys
sum-append [] ys = omega arith
sum-append (x ∷ xs) ys = omega (arith, sum-append xs ys)

pub take_past : (xs ys : List ℕ) (p : ℕ) → take (length xs + p) (xs ++ ys) ≡ xs ++ take p ys
take_past [] ys p = ap (λ k. take k ys) {x = 0 + p} (omega arith)
take_past (x ∷ xs) ys p =
    ap (λ k. take k (x ∷ (xs ++ ys))) {x = length (x ∷ xs) + p} {y = suc (length xs + p)}
      (omega arith)
    ∙ ap (◌∷◌ x) (take_past xs ys p)

-- A sum up to the end of a piece is the sum of the pieces up to there.
pub sum_of_pieces :
    (g : ℕ → List ℕ) (n i k : ℕ)
    → k ≤ n
    → sum (take (sum (take k (map (λ j. length (g j)) (range i n)))) (flat_map g (range i n)))
      ≡ sum (take k (map (λ j. sum (g j)) (range i n)))
sum_of_pieces g n i zero h = refl
sum_of_pieces g zero i (suc k) h = absurd (omega arith)
sum_of_pieces g (suc n) i (suc k) h =
    ap sum (
      take_past (g i) (flat_map g (range (suc i) n))
        (sum (take k (map (λ j. length (g j)) (range (suc i) n)))))
    ∙ sum-append (g i) _
    ∙ ap (λ v. sum (g i) + v) (sum_of_pieces g n (suc i) k (omega arith))

pub length-flat_map :
    (g : ℕ → List ℕ) (n i : ℕ)
    → length (flat_map g (range i n)) ≡ sum (map (λ j. length (g j)) (range i n))
length-flat_map g zero i = refl
length-flat_map g (suc n) i =
    length-append (g i) _ ∙ ap (λ v. length (g i) + v) (length-flat_map g n (suc i))

pub sum-take_below : (k : ℕ) (xs : List ℕ) → sum (take k xs) ≤ sum xs
sum-take_below zero xs = omega arith
sum-take_below (suc k) [] = omega arith
sum-take_below (suc k) (x ∷ xs) = omega (arith, sum-take_below k xs)
