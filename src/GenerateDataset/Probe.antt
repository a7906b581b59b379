-- ===== src/GenerateDataset/Probe.antt =====
-- The keys of the probe table that init_probe_tbl takes from the build table or from the lottery.
use distributed_join.Prelude.{
  ℕ, zero, suc, ◌+◌, ◌-◌, ◌<◌, ◌≡◌, refl, ap, ◌∙◌, sym, Bool, true, false, none, some, List, [],
  ◌∷◌, map, ◌==◌, if◌then◌else◌, length, get_or, leb, arith, inl, inr, ◌⊎◌, Bool-cases, if_true,
  if_false, ==_iff,
}
use distributed_join.Prelude.Ranges.{range}
use distributed_join.GenerateDataset.{contains, left_in_lottery, init_probe_tbl}

-- An entry of an array is one of its keys.
key_at :
    (xs : List ℕ) (i : ℕ)
    → i < length xs
    → (v : ℕ) × (get_or (map some xs) i none ≡ some v) × (contains v xs ≡ true)
key_at [] i h = absurd (omega arith)
key_at (x ∷ xs) zero h = (x, refl, if_true _ _ ((==_iff x x).1 refl))
key_at (x ∷ xs) (suc i) h =
    let (v, at, there) = key_at xs i (omega arith) in
    (
      v,
      at,
      elim (Bool-cases (v == x)) [
        | inl same ↦ if_true _ _ same
        | inr other ↦ if_false _ _ other ∙ there
      ],
    )

-- The first lot, or one behind it.
behind :
    (build_tbl : List ℕ) (n first i : ℕ)
    → contains first build_tbl ≡ false
    → ((i : ℕ)
        → i < length (left_in_lottery (range (suc first) n) build_tbl)
        → (v : ℕ) × (get_or (map some (left_in_lottery (range (suc first) n) build_tbl)) i none
            ≡ some v)
          × (v < suc first + n)
          × (contains v build_tbl ≡ false))
    → i < length (first ∷ left_in_lottery (range (suc first) n) build_tbl)
    → (v : ℕ) × (get_or (map some (first ∷ left_in_lottery (range (suc first) n) build_tbl)) i none
        ≡ some v)
      × (v < first + suc n)
      × (contains v build_tbl ≡ false)
behind build_tbl n first zero free later h = (first, refl, omega arith, free)
behind build_tbl n first (suc i) free later h =
    let (v, at, below, out) = later i (omega arith) in (v, at, omega arith, out)

-- What is left in the lottery is not in the build table.
lot_at :
    (build_tbl : List ℕ) (n first i : ℕ)
    → i < length (left_in_lottery (range first n) build_tbl)
    → (v : ℕ) × (get_or (map some (left_in_lottery (range first n) build_tbl)) i none ≡ some v)
      × (v < first + n)
      × (contains v build_tbl ≡ false)
unfolding left_in_lottery
lot_at build_tbl zero first i h = absurd (omega arith)
lot_at build_tbl (suc n) first i h = elim (Bool-cases (contains first build_tbl)) [
  | inl taken ↦
      let same : left_in_lottery (range first (suc n)) build_tbl
          ≡ left_in_lottery (range (suc first) n) build_tbl =
        if_true _ _ taken in
      let (v, at, below, out) = lot_at build_tbl n (suc first) i (omega (arith, ap length same)) in
      (v, ap (λ xs. get_or (map some xs) i none) same ∙ at, omega arith, out)
  | inr free ↦
      let same : left_in_lottery (range first (suc n)) build_tbl
          ≡ first ∷ left_in_lottery (range (suc first) n) build_tbl =
        if_false _ _ free in
      let (v, at, below, out) =
        behind build_tbl n first i free (lot_at build_tbl n (suc first))
          (omega (arith, ap length same)) in
      (v, ap (λ xs. get_or (map some xs) i none) same ∙ at, below, out)
]

-- If the build table has a key, and the lottery has a lot left and no draw is past its end, then a
-- probe key is written: a selected one is a key of the build table, and another one is a number of the
-- lottery that is no key of the build table.
pub probe_keys :
    (build_tbl : List ℕ) (lots : ℕ) (selected : ℕ → Bool) (draw : ℕ → ℕ → ℕ) (idx : ℕ)
    → 0 < length build_tbl
    → draw idx (length (left_in_lottery (range 0 lots) build_tbl))
      < length (left_in_lottery (range 0 lots) build_tbl)
    → (key : ℕ) × (init_probe_tbl build_tbl
          (left_in_lottery (range 0 lots) build_tbl)
          selected
          draw
          idx
        ≡ some key)
      × (contains key build_tbl ≡ selected idx)
      × ((selected idx ≡ true) ⊎ (key < lots))
unfolding init_probe_tbl
probe_keys build_tbl lots selected draw idx some_keys inside = elim (Bool-cases (selected idx)) [
  | inl in_table ↦
      let (key, at, there) = key_at build_tbl clamped clamped_inside in
      (key, if_true _ _ in_table ∙ at, there ∙ sym in_table, inl in_table)
  | inr not_there ↦
      let (key, at, below, out) = lot_at build_tbl lots 0 _ inside in
      (key, if_false _ _ not_there ∙ at, out ∙ sym not_there, inr (omega arith))
]
  where
    drawn : ℕ
    drawn = draw idx (length build_tbl)

    clamped : ℕ
    clamped = if leb (length build_tbl) drawn then length build_tbl - 1 else drawn

    clamped_inside : clamped < length build_tbl
    clamped_inside = ground arith
