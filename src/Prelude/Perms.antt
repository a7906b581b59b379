-- ===== src/Prelude/Perms.antt =====
-- Lists up to the order of their items: loops that append, and what they append in another order.
use mathlib.Core.Logic.{∥∥₁_elim}
use mathlib.Core.List.{Perm, Permᴰ, Perm-prop}
use mathlib.Core.List as List
use mathlib.Core.List.Permᴰ
use Prim.Native.Nat.{ℕ, zero, suc, ◌+◌, ◌*◌, ◌<◌, ◌≤◌}
use mathlib.Core.Path.{◌≡◌, refl, sym, ap, ap₂, ◌∙◌, subst}
use mathlib.Core.Bool.{Bool}
use mathlib.Core.List.{List, [], ◌∷◌, ◌++◌, append_assoc, append-nil}
use native.Mathlib.Nat.{ℕ_set}
use native.Mathlib.Omega.{arith}
use native.Mathlib.Decide.{ℕ_discrete}
use distributed_join.Prelude.Tests.{◌==◌, if◌then◌else◌, if_true, if_false}
use distributed_join.Prelude.Lists.{length}
use distributed_join.Prelude.Ranges.{range, flat_map, flat_map-range_ext}

-- The items that pass a test.
abbrev pub keep {ℓ} : {A : Type ℓ} → (A → Bool) → List A → List A
keep p xs = flat_map (λ x. if p x then x ∷ [] else []) xs

pub flat_map_append {ℓ κ} :
    {A : Type ℓ} {B : Type κ} (f : A → List B) (xs ys : List A)
    → flat_map f (xs ++ ys) ≡ flat_map f xs ++ flat_map f ys
flat_map_append f [] ys = refl
flat_map_append f (x ∷ xs) ys =
    ap (λ v. f x ++ v) (flat_map_append f xs ys)
    ∙ sym (append_assoc (f x) (flat_map f xs) (flat_map f ys))

pub flat_map_nested {ℓ κ μ} :
    {A : Type ℓ} {B : Type κ} {C : Type μ} (f : B → List C) (g : A → List B) (xs : List A)
    → flat_map f (flat_map g xs) ≡ flat_map (λ x. flat_map f (g x)) xs
flat_map_nested f g [] = refl
flat_map_nested f g (x ∷ xs) =
    flat_map_append f (g x) (flat_map g xs)
    ∙ ap (λ v. flat_map f (g x) ++ v) (flat_map_nested f g xs)

pub flat_map_none {ℓ κ} :
    {A : Type ℓ} {B : Type κ} (xs : List A) → flat_map {B = B} (λ x. []) xs ≡ []
flat_map_none [] = refl
flat_map_none (x ∷ xs) = flat_map_none xs

-- Two nested counted loops as one.
pub flat_map-range_mul {ℓ} :
    {B : Type ℓ} (f : ℕ → List B) (n m b : ℕ)
    → flat_map f (range (b * n) (m * n))
      ≡ flat_map (λ k. flat_map (λ i. f (k * n + i)) (range 0 n)) (range b m)
flat_map-range_mul {B} f n zero b =
    ap (λ k. flat_map f (range (b * n) k)) {x = 0 * n} {y = 0} (omega arith)
flat_map-range_mul {B} f n (suc m) b =
    ap (λ i. flat_map f (range i (suc m * n))) {x = b * n} {y = b * n + 0} (omega arith)
    ∙ ap (λ k. flat_map f (range (b * n + 0) k)) {x = suc m * n} {y = n + m * n} (omega arith)
    ∙ joined n (b * n + 0) (m * n)
    ∙ ap₂ ◌++◌ (shifted n 0) (
        ap (λ i. flat_map f (range i (m * n))) {x = b * n + 0 + n} {y = suc b * n} (omega arith)
        ∙ flat_map-range_mul f n m (suc b))
  where
    joined :
        (n i k : ℕ)
        → flat_map f (range i (n + k)) ≡ flat_map f (range i n) ++ flat_map f (range (i + n) k)
    joined zero i k =
        ap (λ i. flat_map f (range i (0 + k))) {y = i + 0} (omega arith)
        ∙ ap (λ k. flat_map f (range (i + 0) k)) {x = 0 + k} {y = k} (omega arith)
    joined (suc n) i k =
        ap (λ k. flat_map f (range i k)) {x = suc n + k} {y = suc (n + k)} (omega arith)
        ∙ ap (λ v. f i ++ v)
            (joined n (suc i) k
              ∙ ap (λ j. flat_map f (range (suc i) n) ++ flat_map f (range j k)) {y = i + suc n}
                  (omega arith))
        ∙ sym (append_assoc (f i) (flat_map f (range (suc i) n)) _)

    shifted :
        (m i : ℕ) → flat_map f (range (b * n + i) m) ≡ flat_map (λ i. f (b * n + i)) (range i m)
    shifted zero i = refl
    shifted (suc m) i =
        ap (λ v. f (b * n + i) ++ v)
          (ap (λ j. flat_map f (range j m)) {x = suc (b * n + i)} {y = b * n + suc i} (omega arith)
            ∙ shifted m (suc i))

module _ {ℓ} {B : Type ℓ} where
  pub same-Perm : {xs ys : List B} → xs ≡ ys → Perm xs ys
  same-Perm {xs} {ys} e = subst (Perm xs) e (List.Perm.refl xs)

  pub flat_map-range-Perm :
      (f g : ℕ → List B) (i n : ℕ)
      → ((k : ℕ) → i ≤ k → k < i + n → Perm (f k) (g k))
      → Perm (flat_map f (range i n)) (flat_map g (range i n))
  flat_map-range-Perm f g i zero h = List.Perm.refl []
  flat_map-range-Perm f g i (suc n) h =
      List.Perm.append (h i (omega arith) (omega arith))
        (flat_map-range-Perm f g (suc i) n λ k p q. h k (omega arith) (omega arith))

  comm-Perm : (a b : List B) → Perm (a ++ b) (b ++ a)
  comm-Perm a b = ∣ Permᴰ.append_comm a b ∣₁

  exchanged : (a b c d : List B) → Perm ((a ++ b) ++ (c ++ d)) ((a ++ c) ++ (b ++ d))
  exchanged a b c d =
      List.Perm.trans
        (same-Perm (append_assoc a b (c ++ d) ∙ ap (λ v. a ++ v) (sym (append_assoc b c d))))
        (List.Perm.trans (List.Perm.append_left a (List.Perm.append_right d (comm-Perm b c)))
          (same-Perm (ap (λ v. a ++ v) (append_assoc c b d) ∙ sym (append_assoc a c (b ++ d)))))

  module _ {κ} {A : Type κ} where
    pub flat_map-Perm_each :
        (f g : A → List B) (xs : List A)
        → ((x : A) → Perm (f x) (g x))
        → Perm (flat_map f xs) (flat_map g xs)
    flat_map-Perm_each f g [] h = List.Perm.refl []
    flat_map-Perm_each f g (x ∷ xs) h = List.Perm.append (h x) (flat_map-Perm_each f g xs h)

    pub flat_map-append-Perm :
        (f g : A → List B) (xs : List A)
        → Perm (flat_map (λ x. f x ++ g x) xs) (flat_map f xs ++ flat_map g xs)
    flat_map-append-Perm f g [] = List.Perm.refl []
    flat_map-append-Perm f g (x ∷ xs) =
        List.Perm.trans (List.Perm.append_left (f x ++ g x) (flat_map-append-Perm f g xs))
          (exchanged (f x) (g x) (flat_map f xs) (flat_map g xs))

    moved : (f : A → List B) {xs ys : List A} → Permᴰ xs ys → Perm (flat_map f xs) (flat_map f ys)
    moved f Permᴰ.nil = List.Perm.refl []
    moved f (Permᴰ.cons {a = a} {b = b} {l₁ = l₁} e d) =
        List.Perm.trans (same-Perm (ap (λ v. f v ++ flat_map f l₁) e))
          (List.Perm.append_left (f b) (moved f d))
    moved f (Permᴰ.swap {a = a} {b = b} {a' = a'} {b' = b'} {l = l} e₁ e₂) =
        List.Perm.trans (same-Perm (sym (append_assoc (f a) (f b) (flat_map f l)))) (
          List.Perm.trans (List.Perm.append_right (flat_map f l) (comm-Perm (f a) (f b))) (
            same-Perm (
              ap₂ (λ u v. (f u ++ f v) ++ flat_map f l) e₂ e₁
              ∙ append_assoc (f a') (f b') (flat_map f l))))
    moved f (Permᴰ.trans d₁ d₂) = List.Perm.trans (moved f d₁) (moved f d₂)

    pub flat_map-Perm :
        (f : A → List B) (xs ys : List A) → Perm xs ys → Perm (flat_map f xs) (flat_map f ys)
    flat_map-Perm f xs ys p = ∥∥₁_elim p Perm-prop (λ d. moved f d)

module _ {ℓ} {B : Type ℓ} where
  pub flat_map_swap-Perm {κ} :
      {A C : Type κ} (f : A → C → List B) (xs : List A) (ys : List C)
      → Perm (flat_map (λ x. flat_map (f x) ys) xs) (flat_map (λ y. flat_map (λ x. f x y) xs) ys)
  flat_map_swap-Perm f [] ys = same-Perm (sym (flat_map_none ys))
  flat_map_swap-Perm f (x ∷ xs) ys =
      List.Perm.trans (List.Perm.append_left (flat_map (f x) ys) (flat_map_swap-Perm f xs ys))
        (List.Perm.symm (flat_map-append-Perm (f x) (λ y. flat_map (λ x. f x y) xs) ys))

module _ {ℓ} {A : Type ℓ} where
  pub keep-flat_map :
      {B : Type ℓ} (p : A → Bool) (f : B → List A) (xs : List B)
      → keep p (flat_map f xs) ≡ flat_map (λ x. keep p (f x)) xs
  keep-flat_map p f xs = flat_map_nested (λ x. if p x then x ∷ [] else []) f xs

  -- One index of a loop that does nothing at the others.
  pub flat_map-range_single :
      (x : ℕ → List A) (k i n : ℕ)
      → i ≤ k
      → k < i + n
      → flat_map (λ j. if k == j then x j else []) (range i n) ≡ x k
  flat_map-range_single x k i zero p q = absurd (omega arith)
  flat_map-range_single x k i (suc n) p q = elim (ℕ_discrete k i) [
    | yes e ↦
        ap₂ ◌++◌ (if_true (x i) [] (ground arith) ∙ ap x (sym e)) (
          flat_map-range_ext _ (λ j. []) (suc i) n (λ j a b. if_false (x j) [] (ground arith))
          ∙ flat_map_none (range (suc i) n))
        ∙ append-nil (x k)
    | no ne ↦
        ap₂ ◌++◌ (if_false (x i) [] (ground arith))
          (flat_map-range_single x k (suc i) n (ground arith) (omega arith))
  ]

  length-Permᴰ : {xs ys : List A} → Permᴰ xs ys → length xs ≡ length ys
  length-Permᴰ Permᴰ.nil = refl
  length-Permᴰ (Permᴰ.cons e d) = ap suc (length-Permᴰ d)
  length-Permᴰ (Permᴰ.swap e₁ e₂) = refl
  length-Permᴰ (Permᴰ.trans d₁ d₂) = length-Permᴰ d₁ ∙ length-Permᴰ d₂

  pub length-Perm : {xs ys : List A} → Perm xs ys → length xs ≡ length ys
  length-Perm {xs} {ys} p = ∥∥₁_elim p (ℕ_set (length xs) (length ys)) length-Permᴰ
