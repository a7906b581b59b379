-- ===== src/Prelude/Slices.antt =====
-- Regions of a buffer: reading one, and writing one in place.
use Prim.Native.Nat.{ℕ, zero, suc, ◌+◌, ◌*◌, ◌≤◌}
use mathlib.Core.Path.{◌≡◌, refl, sym, ap, ap₂, ◌∙◌}
use mathlib.Core.List.{List, [], ◌∷◌, ◌++◌, append-nil}
use native.Mathlib.Omega.{arith}
use distributed_join.Prelude.Lists.{
  length, take, drop, length-take, length-drop, length-append, take-length-append,
  drop-length-append, drop-drop, take-nil, drop_all,
}

pub mul_mono : (a b w : ℕ) → a ≤ b → a * w ≤ b * w
mul_mono a b w h = grind arith

-- A stretch of elements lies in its buffer, measured in items.
pub scaled_fits : (s c g w len : ℕ) → s + c ≤ g → len ≡ g * w → s * w + c * w ≤ len
scaled_fits s c g w len h e = omega (arith, mul_mono (s + c) g w h)

module _ {ℓ} {A : Type ℓ} where
  -- The `n` items from `off` on.
  abbrev pub slice : List A → ℕ → ℕ → List A
  slice xs off n = take n (drop off xs)

  -- A copy of `ys` into `xs` at `off`, inside its bounds.
  unfoldable pub write_at : List A → ℕ → List A → List A
  write_at xs off ys = take off xs ++ (ys ++ drop (off + length ys) xs)

  pub length-slice : (xs : List A) (off n : ℕ) → off + n ≤ length xs → length (slice xs off n) ≡ n
  length-slice xs off n h = omega (arith, length-take n (drop off xs), length-drop off xs)

  pub length-write_at :
      (xs : List A) (off : ℕ) (ys : List A)
      → off + length ys ≤ length xs
      → length (write_at xs off ys) ≡ length xs
  unfolding write_at
  length-write_at xs off ys h = omega (
    arith,
    length-append (take off xs) (ys ++ drop (off + length ys) xs),
    length-append ys (drop (off + length ys) xs),
    length-take off xs,
    length-drop (off + length ys) xs,
  )

  -- A write over a middle part of the same length.
  pub write_at-middle :
      (done old new rest : List A) (off : ℕ)
      → off ≡ length done
      → length new ≡ length old
      → write_at (done ++ (old ++ rest)) off new ≡ done ++ (new ++ rest)
  unfolding write_at
  write_at-middle done old new rest off e l =
      ap₂ (λ (u v : List A). u ++ (new ++ v)) (take-length-append off done (old ++ rest) (sym e))
        (ap (λ k. drop k (done ++ (old ++ rest))) (ap (λ k. off + k) l)
          ∙ sym (drop-drop (length old) off (done ++ (old ++ rest)))
          ∙ ap (drop (length old)) (drop-length-append off done (old ++ rest) (sym e))
          ∙ drop-length-append (length old) old rest refl)

  -- Adjacent slices join.
  pub take-add : (m n : ℕ) (xs : List A) → take (m + n) xs ≡ take m xs ++ take n (drop m xs)
  take-add zero n xs = ap (λ k. take k xs) {y = n} (omega arith)
  take-add (suc m) n [] = take-nil (suc m + n) ∙ sym (take-nil n)
  take-add (suc m) n (x ∷ xs) =
      ap (λ k. take k (x ∷ xs)) {y = suc (m + n)} (omega arith) ∙ ap (◌∷◌ x) (take-add m n xs)

  pub slice-append :
      (xs : List A) (off m n : ℕ) → slice xs off m ++ slice xs (off + m) n ≡ slice xs off (m + n)
  slice-append xs off m n =
      ap (λ v. slice xs off m ++ take n v) (sym (drop-drop m off xs))
      ∙ sym (take-add m n (drop off xs))

  -- A write over a whole buffer.
  pub write_at_whole : (xs ys : List A) → length ys ≡ length xs → write_at xs 0 ys ≡ ys
  unfolding write_at
  write_at_whole xs ys e = ap (◌++◌ ys) (drop_all (0 + length ys) xs (omega arith)) ∙ append-nil ys
