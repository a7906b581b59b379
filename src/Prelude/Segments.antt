-- ===== src/Prelude/Segments.antt =====
-- Running offsets of a list of counts, and a list cut into pieces at such offsets.
use Prim.Native.Nat.{ℕ, zero, suc, ◌+◌, ◌-◌, ◌<◌, ◌≤◌}
use mathlib.Core.Path.{◌≡◌, refl, sym, ap, ◌∙◌}
use mathlib.Core.List.{List, [], ◌∷◌, ◌++◌, append_assoc}
use mathlib.Core.Bool.{Bool, false}
use mathlib.Core.Logic.{inl, inr}
use native.Mathlib.Omega.{arith}
use distributed_join.Prelude.Tests.{if◌then◌else◌, if_true, if_false, Bool-cases}
use distributed_join.Prelude.Lists.{length, take, take_all, get_or, sum, length-append}
use distributed_join.Prelude.Ranges.{range, flat_map}
use distributed_join.Prelude.Slices.{slice, slice-append, write_at, write_at-middle}

-- `std::partial_sum`, started at `acc`.
unfoldable pub partial_sum : ℕ → List ℕ → List ℕ
partial_sum acc [] = []
partial_sum acc (c ∷ cs) = (acc + c) ∷ partial_sum (acc + c) cs

-- The start of each piece, and the end of the last one.
abbrev pub offsets_of : ℕ → List ℕ → List ℕ
offsets_of acc cs = acc ∷ partial_sum acc cs

abbrev pub last_or : List ℕ → ℕ → ℕ
last_or [] d = d
last_or (x ∷ xs) d = last_or xs x

-- Adjacent differences.
abbrev pub diffs : List ℕ → ℕ → ℕ
diffs xs i = get_or xs (i + 1) 0 - get_or xs i 0

-- A vector of offsets does not fall.
abbrev pub Monotone : List ℕ → Type 0
Monotone [] = Unit {0}
Monotone (x ∷ xs) = (x ≤ get_or xs 0 x) × Monotone xs

pub length-partial_sum : (acc : ℕ) (cs : List ℕ) → length (partial_sum acc cs) ≡ length cs
unfolding partial_sum
length-partial_sum acc [] = refl
length-partial_sum acc (c ∷ cs) = ap suc (length-partial_sum (acc + c) cs)

pub get_or-offsets_of :
    (acc : ℕ) (cs : List ℕ) (i : ℕ)
    → i ≤ length cs
    → get_or (offsets_of acc cs) i 0 ≡ acc + sum (take i cs)
unfolding partial_sum
get_or-offsets_of acc cs zero h = omega arith
get_or-offsets_of acc [] (suc i) h = absurd (omega arith)
get_or-offsets_of acc (c ∷ cs) (suc i) h =
    omega (arith, get_or-offsets_of (acc + c) cs i (omega arith))

pub last_or-offsets_of :
    (acc : ℕ) (cs : List ℕ) (d : ℕ) → last_or (offsets_of acc cs) d ≡ acc + sum cs
unfolding partial_sum
last_or-offsets_of acc [] d = omega arith
last_or-offsets_of acc (c ∷ cs) d = omega (arith, last_or-offsets_of (acc + c) cs acc)

pub sum-take-suc : (cs : List ℕ) (i : ℕ) → sum (take (suc i) cs) ≡ sum (take i cs) + get_or cs i 0
sum-take-suc [] zero = omega arith
sum-take-suc [] (suc i) = omega arith
sum-take-suc (c ∷ cs) zero = omega arith
sum-take-suc (c ∷ cs) (suc i) = omega (arith, sum-take-suc cs i)

-- The difference of adjacent running offsets is the count.
pub diffs-offsets_of :
    (acc : ℕ) (cs : List ℕ) (i : ℕ) → i < length cs → diffs (offsets_of acc cs) i ≡ get_or cs i 0
diffs-offsets_of acc cs i h =
    let e : get_or (offsets_of acc cs) (i + 1) 0 ≡ acc + sum (take (i + 1) cs) =
      get_or-offsets_of acc cs (i + 1) (omega arith) in
    let s : sum (take (i + 1) cs) ≡ sum (take i cs) + get_or cs i 0 =
      ap (λ k. sum (take k cs)) {y = suc i} (omega arith) ∙ sum-take-suc cs i in
    omega (arith, e, s, get_or-offsets_of acc cs i (omega arith))

-- Slices between running offsets make up the stretch from the first offset to the last.
module _ {ℓ} {A : Type ℓ} (xs : List A) (off len : ℕ → ℕ) (N : ℕ) where
  pub slices_cover :
      ((k : ℕ) → k < N → off (suc k) ≡ off k + len k)
      → (n i t : ℕ) → i + n ≡ N
      → off i + t ≡ off N
      → flat_map (λ k. slice xs (off k) (len k)) (range i n) ≡ slice xs (off i) t
  slices_cover next zero i t e f =
      let at : off i ≡ off N = ap off (omega arith) in
      ap (λ k. slice xs (off i) k) {x = 0} (omega arith)
  slices_cover next (suc n) i t e f =
      let climbs : off (suc i) ≤ off N = offsets_climb next n (suc i) (omega arith) in
      let step : off (suc i) ≡ off i + len i = next i (omega arith) in
      ap (◌++◌ (slice xs (off i) (len i))) (
        slices_cover next n (suc i) (t - len i) (omega arith) (omega arith)
        ∙ ap (λ k. slice xs k (t - len i)) step)
      ∙ slice-append xs (off i) (len i) (t - len i)
      ∙ ap (slice xs (off i)) (omega arith)
    where
      offsets_climb :
          ((k : ℕ) → k < N → off (suc k) ≡ off k + len k) → (n i : ℕ) → i + n ≡ N → off i ≤ off N
      offsets_climb next zero i e = let at : off i ≡ off N = ap off (omega arith) in omega arith
      offsets_climb next (suc n) i e =
          let step : off (suc i) ≡ off i + len i = next i (omega arith) in
          omega (arith, offsets_climb next n (suc i) (omega arith))

-- Copies into a buffer in turn: round `k` writes `new k` at `off k`, unless it is skipped.
module _ {ℓ} {A : Type ℓ} (skip : ℕ → Bool) (off : ℕ → ℕ) where
  unfoldable pub write_rounds : (ℕ → List A) → List ℕ → List A → List A
  write_rounds new [] buffer = buffer
  write_rounds new (k ∷ ks) buffer =
      write_rounds new ks (if skip k then buffer else write_at buffer (off k) (new k))

  module _ (N : ℕ) (old new : ℕ → List A)
      (next : (k : ℕ) → k < N → off (suc k) ≡ off k + length (old k))
      (same : (k : ℕ) → k < N → skip k ≡ false → length (new k) ≡ length (old k)) where
    -- Copies that fill the places of the old pieces.
    pub write_loop :
        (n i : ℕ) (done buffer : List A)
        → i + n ≡ N
        → buffer ≡ done ++ flat_map old (range i n)
        → off i ≡ length done
        → write_rounds new (range i n) buffer
          ≡ done ++ flat_map (λ k. if skip k then old k else new k) (range i n)
    unfolding write_rounds
    write_loop zero i done buffer e held at = held
    write_loop (suc n) i done buffer e held at = elim (Bool-cases (skip i)) [
      | inl skips ↦
          ap (write_rounds new (range (suc i) n)) (if_true _ _ skips)
          ∙ write_loop n (suc i) (done ++ old i) buffer (omega arith)
              (held ∙ sym (append_assoc done (old i) _))
              (next i (omega arith) ∙ omega (arith, at, length-append done (old i)))
          ∙ append_assoc done (old i) rest
          ∙ ap (λ v. done ++ (v ++ rest)) (sym (if_true _ _ skips))
      | inr takes ↦
          ap (write_rounds new (range (suc i) n)) (if_false _ _ takes)
          ∙ write_loop n (suc i) (done ++ new i) (write_at buffer (off i) (new i)) (omega arith)
              (ap (λ v. write_at v (off i) (new i)) held
                ∙ write_at-middle done (old i) (new i) _ (off i) at (same i (omega arith) takes)
                ∙ sym (append_assoc done (new i) _))
              (next i (omega arith)
                ∙ omega (arith, at, length-append done (new i), same i (omega arith) takes))
          ∙ append_assoc done (new i) rest
          ∙ ap (λ v. done ++ (v ++ rest)) (sym (if_false _ _ takes))
    ]
      where
        rest : List A
        rest = flat_map (λ k. if skip k then old k else new k) (range (suc i) n)

-- Offsets received as the running sums of counts.
module _ (counts : List ℕ) where
  pub offsets_climb :
      (k : ℕ)
      → k < length counts
      → get_or (offsets_of 0 counts) k 0 ≤ get_or (offsets_of 0 counts) (k + 1) 0
  offsets_climb k h = omega (
    arith,
    get_or-offsets_of 0 counts k (omega arith),
    get_or-offsets_of 0 counts (k + 1) (omega arith),
    ap (λ i. sum (take i counts)) {x = k + 1} {y = suc k} (omega arith),
    sum-take-suc counts k,
  )

  pub offsets_below :
      (j k : ℕ)
      → k + j ≡ length counts
      → get_or (offsets_of 0 counts) k 0 ≤ get_or (offsets_of 0 counts) (length counts) 0
  offsets_below zero k e =
      let at : get_or (offsets_of 0 counts) k 0 ≡ get_or (offsets_of 0 counts) (length counts) 0 =
        ap (λ i. get_or (offsets_of 0 counts) i 0) (omega arith) in
      omega arith
  offsets_below (suc j) k e =
      omega (arith, offsets_climb k (omega arith), offsets_below j (k + 1) (omega arith))

  pub offsets_last :
      last_or (offsets_of 0 counts) 0 ≡ get_or (offsets_of 0 counts) (length counts) 0
  offsets_last =
      last_or-offsets_of 0 counts 0
      ∙ sym (
          get_or-offsets_of 0 counts (length counts) (omega arith)
          ∙ ap (λ v. 0 + sum v) (take_all (length counts) counts (omega arith)))
