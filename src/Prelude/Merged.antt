-- ===== src/Prelude/Merged.antt =====
-- Pieces of different lengths, copied into one buffer behind one another.
use Prim.Native.Nat.{ℕ, zero, suc, ◌+◌, ◌-◌, ◌*◌, ◌<◌, ◌≤◌}
use mathlib.Core.Path.{◌≡◌, refl, sym, ap, ap₂, ◌∙◌}
use mathlib.Core.List.{List, [], ◌∷◌, ◌++◌, map, append_assoc}
use mathlib.Core.Bool.{Bool, true, false}
use native.Mathlib.Omega.{arith}
use native.Mathlib.Decide.{dec_le}
use distributed_join.Prelude.Tests.{if◌then◌else◌, if_false}
use distributed_join.Prelude.Lists.{
  length, take, get_or, replicate, take_all, length-append, length-map, length-replicate,
  take-length-append, drop-length-append,
}
use distributed_join.Prelude.Ranges.{range, flat_map}
use distributed_join.Prelude.Slices.{slice, length-slice}
use distributed_join.Prelude.Segments.{
  offsets_of, last_or, diffs, write_rounds, write_loop, slices_cover, diffs-offsets_of,
  offsets_climb, offsets_below, offsets_last,
}

module _ {A : Type 0} where
  -- A piece of a list that is made of pieces.
  pub slice_of_pieces :
      (g : ℕ → List A) (off : ℕ → ℕ) (N : ℕ)
      → ((k : ℕ) → k < N → off (suc k) ≡ off k + length (g k))
      → (n i : ℕ) (done : List A) → i + n ≡ N
      → off i ≡ length done
      → (k : ℕ) → i ≤ k
      → k < N
      → slice (done ++ flat_map g (range i n)) (off k) (length (g k)) ≡ g k
  slice_of_pieces g off N next zero i done e at k h q = absurd (omega arith)
  slice_of_pieces g off N next (suc n) i done e at k h q = elim (dec_le k i) [
    | yes first ↦
        let same : k ≡ i = omega arith in
        ap (λ k. slice (done ++ (g i ++ flat_map g (range (suc i) n))) (off k) (length (g k))) same
        ∙ ap (λ k. slice (done ++ (g i ++ flat_map g (range (suc i) n))) k (length (g i))) at
        ∙ ap (take (length (g i)))
            (drop-length-append (length done) done (g i ++ flat_map g (range (suc i) n)) refl)
        ∙ take-length-append (length (g i)) (g i) (flat_map g (range (suc i) n)) refl
        ∙ ap g (sym same)
    | no later ↦
        ap (λ v. slice v (off k) (length (g k)))
          (sym (append_assoc done (g i) (flat_map g (range (suc i) n))))
        ∙ slice_of_pieces g off N next n (suc i) (done ++ g i) (omega arith)
            (next i (omega arith) ∙ omega (arith, at, length-append done (g i))) k (omega arith) q
  ]

  module _ (skip : ℕ → Bool) (ps : List (List A)) (junk : A) where
    abbrev pub piece_offsets : List ℕ
    piece_offsets = offsets_of 0 (map length ps)

    abbrev off : ℕ → ℕ
    off i = get_or piece_offsets i 0

    abbrev piece_at : ℕ → List A
    piece_at i = get_or ps i []

    abbrev room : List A
    room = replicate (last_or piece_offsets 0) junk

    abbrev pub merged : List A
    merged = write_rounds skip off piece_at (range 0 (length ps)) room

    get_or-map-length :
        (ps : List (List A)) (k : ℕ) → get_or (map length ps) k 0 ≡ length (get_or ps k [])
    get_or-map-length [] k = refl
    get_or-map-length (p ∷ ps) zero = refl
    get_or-map-length (p ∷ ps) (suc k) = get_or-map-length ps k

    next_off : (k : ℕ) → k < length ps → off (suc k) ≡ off k + length (piece_at k)
    next_off k h =
        ap off {x = suc k} {y = k + 1} (omega arith)
        ∙ omega (
          arith,
          diffs-offsets_of 0 (map length ps) k (omega (arith, length-map length ps)),
          offsets_climb (map length ps) k (omega (arith, length-map length ps)),
          get_or-map-length ps k,
        )

    end_off : off (length ps) ≡ length room
    end_off =
        ap off (sym (length-map length ps))
        ∙ sym (offsets_last (map length ps))
        ∙ sym (length-replicate (last_or piece_offsets 0) junk)

    below : (k : ℕ) → k ≤ length ps → off k ≤ length room
    below k h =
        let e : off (length (map length ps)) ≡ off (length ps) = ap off (length-map length ps) in
        omega (
          arith,
          e,
          end_off,
          offsets_below (map length ps) (length ps - k) k (omega (arith, length-map length ps)),
        )

    -- What is in the place of a piece at first.
    old_at : ℕ → List A
    old_at k = slice room (off k) (length (piece_at k))

    length-old_at : (k : ℕ) → k < length ps → length (old_at k) ≡ length (piece_at k)
    unfolding old_at
    length-old_at k h =
        length-slice room (off k) (length (piece_at k))
          (omega (arith, next_off k h, below (suc k) (omega arith)))

    covered : room ≡ flat_map old_at (range 0 (length ps))
    unfolding old_at
    covered =
        sym (take_all (length room) room (omega arith))
        ∙ sym (
            slices_cover room off (λ k. length (piece_at k)) (length ps) next_off (length ps) 0
              (length room) (omega arith) (omega (arith, end_off)))

    abbrev laid : ℕ → List A
    laid k = if skip k then old_at k else piece_at k

    merged_is : merged ≡ flat_map laid (range 0 (length ps))
    merged_is =
        write_loop skip off (length ps) old_at piece_at
          (λ k h. next_off k h ∙ ap (λ n. off k + n) (sym (length-old_at k h)))
          (λ k h f. sym (length-old_at k h)) (length ps) 0 [] room (omega arith) covered refl

    length-laid : (k : ℕ) → k < length ps → length (laid k) ≡ length (piece_at k)
    length-laid k h = by_skip (skip k)
      where
        by_skip : (b : Bool) → length (if b then old_at k else piece_at k) ≡ length (piece_at k)
        by_skip true = length-old_at k h
        by_skip false = refl

    at_offset :
        (k : ℕ)
        → k < length ps
        → slice merged (get_or piece_offsets k 0) (length (get_or ps k [])) ≡ laid k
    at_offset k h =
        ap₂ (λ v n. slice v (off k) n) merged_is (sym (length-laid k h))
        ∙ slice_of_pieces laid off (length ps)
            (λ k h. next_off k h ∙ ap (λ n. off k + n) (sym (length-laid k h))) (length ps) 0 []
            (omega arith) refl k (omega arith) h

    count_at : (k : ℕ) → k < length ps → diffs piece_offsets k * 1 ≡ length (get_or ps k [])
    count_at k h = omega (
      arith,
      diffs-offsets_of 0 (map length ps) k (omega (arith, length-map length ps)),
      get_or-map-length ps k,
    )

    -- A piece that is not skipped is where its offset says.
    pub slice-merged :
        (k : ℕ)
        → k < length ps
        → skip k ≡ false
        → slice merged (get_or piece_offsets k 0 * 1) (diffs piece_offsets k * 1) ≡ get_or ps k []
    slice-merged k h takes =
        ap₂ (slice merged) {x = get_or piece_offsets k 0 * 1} (omega arith) (count_at k h)
        ∙ at_offset k h
        ∙ if_false _ _ takes

    pub length-slice-merged :
        (k : ℕ)
        → k < length ps
        → length (slice merged (get_or piece_offsets k 0 * 1) (diffs piece_offsets k * 1))
          ≡ diffs piece_offsets k
    length-slice-merged k h =
        ap length (
          ap₂ (slice merged) {x = get_or piece_offsets k 0 * 1} (omega arith) (count_at k h)
          ∙ at_offset k h)
        ∙ length-laid k h
        ∙ omega (arith, count_at k h)
