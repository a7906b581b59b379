-- ===== src/Prelude/Ranges.antt =====
-- The indices of a counted loop, and loops over them.
use Prim.Native.Nat.{ℕ, zero, suc, ◌+◌, ◌<◌, ◌≤◌}
use mathlib.Core.Path.{◌≡◌, refl, sym, ap, ap₂, ◌∙◌}
use mathlib.Core.List.{List, [], ◌∷◌, ◌++◌, map, append_assoc}
use native.Mathlib.Omega.{arith}
use mathlib.Core.Option.{Option, some}
use distributed_join.Prelude.Tests.{◌>>=◌}
use distributed_join.Prelude.Lists.{length, get_or, flatten, length-append, replicate}

-- `for (k = i; k < i + n; k++)`: the values that `k` takes.
abbrev pub range : ℕ → ℕ → List ℕ
range i zero = []
range i (suc n) = i ∷ range (suc i) n

abbrev pub flat_map {ℓ κ} : {A : Type ℓ} {B : Type κ} → (A → List B) → List A → List B
flat_map f [] = []
flat_map f (x ∷ xs) = f x ++ flat_map f xs

pub length-range : (i n : ℕ) → length (range i n) ≡ n
length-range i zero = refl
length-range i (suc n) = ap suc (length-range (suc i) n)

pub get_or-append {ℓ} :
    {B : Type ℓ} (before : List B) (x : B) (xs : List B) (d : B) (i : ℕ)
    → length before ≡ i
    → get_or (before ++ x ∷ xs) i d ≡ x
get_or-append [] x xs d zero e = refl
get_or-append [] x xs d (suc i) e = absurd (omega arith)
get_or-append (y ∷ before) x xs d zero e = absurd (omega arith)
get_or-append (y ∷ before) x xs d (suc i) e = get_or-append before x xs d i (omega arith)

module _ {ℓ} {A : Type ℓ} where
  pub map-range_ext :
      (f g : ℕ → A) (i n : ℕ)
      → ((k : ℕ) → i ≤ k → k < i + n → f k ≡ g k)
      → map f (range i n) ≡ map g (range i n)
  map-range_ext f g i zero h = refl
  map-range_ext f g i (suc n) h =
      ap₂ ◌∷◌ (h i (omega arith) (omega arith))
        (map-range_ext f g (suc i) n λ k p q. h k (omega arith) (omega arith))

  pub flat_map-range_ext :
      (f g : ℕ → List A) (i n : ℕ)
      → ((k : ℕ) → i ≤ k → k < i + n → f k ≡ g k)
      → flat_map f (range i n) ≡ flat_map g (range i n)
  flat_map-range_ext f g i zero h = refl
  flat_map-range_ext f g i (suc n) h =
      ap₂ ◌++◌ (h i (omega arith) (omega arith))
        (flat_map-range_ext f g (suc i) n λ k p q. h k (omega arith) (omega arith))

  pub get_or-map :
      {B : Type ℓ} (f : B → A) (xs : List B) (i : ℕ) (d : B) (e : A)
      → i < length xs
      → get_or (map f xs) i e ≡ f (get_or xs i d)
  get_or-map f [] i d e h = absurd (omega arith)
  get_or-map f (x ∷ xs) zero d e h = refl
  get_or-map f (x ∷ xs) (suc i) d e h = get_or-map f xs i d e (omega arith)

  pub get_or-map-range :
      (f : ℕ → A) (d : A) (i n k : ℕ) → k < n → get_or (map f (range i n)) k d ≡ f (i + k)
  get_or-map-range f d i zero k h = absurd (omega arith)
  get_or-map-range f d i (suc n) zero h = ap f (omega arith)
  get_or-map-range f d i (suc n) (suc k) h =
      get_or-map-range f d (suc i) n k (omega arith) ∙ ap f {x = suc i + k} (omega arith)

  pub flat_map-map-flatten :
      {B : Type ℓ} (f : B → List A) (xs : List B) → flat_map f xs ≡ flatten (map f xs)
  flat_map-map-flatten f [] = refl
  flat_map-map-flatten f (x ∷ xs) = ap (◌++◌ (f x)) (flat_map-map-flatten f xs)

  pub map-get_or-range :
      {B : Type ℓ} (f : B → A) (d : B) (xs : List B)
      → map (λ k. f (get_or xs k d)) (range 0 (length xs)) ≡ map f xs
  map-get_or-range f d xs = shifted f d 0 [] xs refl
    where
      shifted :
          {B : Type ℓ} (f : B → A) (d : B) (i : ℕ) (before xs : List B)
          → length before ≡ i
          → map (λ k. f (get_or (before ++ xs) k d)) (range i (length xs)) ≡ map f xs
      shifted f d i before [] e = refl
      shifted f d i before (x ∷ xs) e = ap₂ ◌∷◌ (ap f (get_or-append before x xs d i e)) (
          ap (λ ys. map (λ k. f (get_or ys k d)) (range (suc i) (length xs)))
            (sym (append_assoc before (x ∷ []) xs))
          ∙ shifted f d (suc i) (before ++ x ∷ []) xs
              (omega (arith, length-append before (x ∷ []))))

  pub map_self : (xs : List A) → map (λ x. x) xs ≡ xs
  map_self [] = refl
  map_self (x ∷ xs) = ap (◌∷◌ x) (map_self xs)

  pub flat_map_singles :
      {B : Type ℓ} (f : B → A) (xs : List B) → flat_map (λ x. f x ∷ []) xs ≡ map f xs
  flat_map_singles f [] = refl
  flat_map_singles f (x ∷ xs) = ap (◌∷◌ (f x)) (flat_map_singles f xs)

  pub replicate-flat_map : (a : A) (i n : ℕ) → replicate n a ≡ flat_map (λ k. a ∷ []) (range i n)
  replicate-flat_map a i zero = refl
  replicate-flat_map a i (suc n) = ap (◌∷◌ a) (replicate-flat_map a (suc i) n)

-- A step that can fail, on each of the items in turn.
abbrev pub each : {B C : Type 0} → (B → Option C) → List B → Option (List C)
each f [] = some []
each f (x ∷ xs) = f x >>= λ y. each f xs >>= λ ys. some (y ∷ ys)

pub each-range :
    {B : Type 0} (f : ℕ → Option B) (g : ℕ → B) (i n : ℕ)
    → ((k : ℕ) → i ≤ k → k < i + n → f k ≡ some (g k))
    → each f (range i n) ≡ some (map g (range i n))
each-range f g i zero h = refl
each-range f g i (suc n) h =
    ap (λ o. o >>= λ y. each f (range (suc i) n) >>= λ ys. some (y ∷ ys))
      (h i (omega arith) (omega arith))
    ∙ ap (λ o. o >>= λ ys. some (g i ∷ ys))
        (each-range f g (suc i) n λ k p q. h k (omega arith) (omega arith))

pub each-map :
    {B C : Type 0} (f : B → Option C) (g : B → C) (xs : List B)
    → ((x : B) → f x ≡ some (g x))
    → each f xs ≡ some (map g xs)
each-map f g [] h = refl
each-map f g (x ∷ xs) h =
    ap (λ o. o >>= λ y. each f xs >>= λ ys. some (y ∷ ys)) (h x)
    ∙ ap (λ o. o >>= λ ys. some (g x ∷ ys)) (each-map f g xs h)
