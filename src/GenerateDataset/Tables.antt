-- ===== src/GenerateDataset/Tables.antt =====
-- generate_input_tables: the keys of both tables.
use distributed_join.Prelude.{
  ℕ, zero, suc, ◌+◌, ◌<◌, ◌≤◌, ◌≡◌, refl, ap, ◌∙◌, sym, Bool, true, false, Option, none, some, List,
  [], ◌∷◌, ◌++◌, map, ◌==◌, if◌then◌else◌, length, get_or, arith, inl, inr, Bool-cases, if_true,
  if_false, ==_iff, ◌>>=◌, length-map,
}
use distributed_join.Prelude.Ranges.{
  range, each, each-range, get_or-map, get_or-map-range, length-range,
}
use distributed_join.GenerateDataset.{
  contains, left_in_lottery, init_probe_tbl, lottery_size, generate_input_tables,
}
use distributed_join.GenerateDataset.Unique.{after, unique_keys}
use distributed_join.GenerateDataset.Filled.{slots_filled, length-after, balance-after}
use distributed_join.GenerateDataset.Counts.{count_none, count_some}
use distributed_join.GenerateDataset.Probe.{probe_keys}

-- A key below the numbers of a range takes none of them out.
left-cons_below :
    (k : ℕ) (ks : List ℕ) (n i : ℕ)
    → k < i
    → left_in_lottery (range i n) (k ∷ ks) ≡ left_in_lottery (range i n) ks
unfolding left_in_lottery
left-cons_below k ks zero i h = refl
left-cons_below k ks (suc n) i h =
    ap
      (λ b.
        if b
        then left_in_lottery (range (suc i) n) (k ∷ ks)
        else i ∷ left_in_lottery (range (suc i) n) (k ∷ ks))
      {x = contains i (k ∷ ks)} {y = contains i ks}
      (if_false {b = i == k} true (contains i ks) (ground arith))
    ∙ ap (λ vs. if contains i ks then vs else i ∷ vs) (left-cons_below k ks n (suc i) (omega arith))

one_more : (v : ℕ) (b : Bool) (xs : List ℕ) → length (if b then xs else v ∷ xs) ≤ length xs + 1
one_more v true xs = omega arith
one_more v false xs = omega arith

one_each :
    (v : ℕ) (b : Bool) (xs ys : List ℕ)
    → length xs ≤ length ys + 1
    → length (if b then xs else v ∷ xs) ≤ length (if b then ys else v ∷ ys) + 1
one_each v true xs ys h = h
one_each v false xs ys h = omega arith

-- A key takes one number out of the lottery, at most.
left-cons :
    (k : ℕ) (ks : List ℕ) (n i : ℕ)
    → length (left_in_lottery (range i n) ks) ≤ length (left_in_lottery (range i n) (k ∷ ks)) + 1
unfolding left_in_lottery
left-cons k ks zero i = omega arith
left-cons k ks (suc n) i = elim (Bool-cases (i == k)) [
  | inl same ↦
      let taken : length (left_in_lottery (range i (suc n)) (k ∷ ks))
          ≡ length (left_in_lottery (range (suc i) n) ks) =
        ap length (
          if_true _ _ (if_true true (contains i ks) same)
          ∙ left-cons_below k ks n (suc i) (ground (arith, (==_iff i k).0 same))) in
      omega (arith, taken, one_more i (contains i ks) (left_in_lottery (range (suc i) n) ks))
  | inr other ↦
      let alike : length (left_in_lottery (range i (suc n)) (k ∷ ks))
          ≡ length (
              if contains i ks
              then left_in_lottery (range (suc i) n) (k ∷ ks)
              else i ∷ left_in_lottery (range (suc i) n) (k ∷ ks)) =
        ap
          (λ b. length (
            if b
            then left_in_lottery (range (suc i) n) (k ∷ ks)
            else i ∷ left_in_lottery (range (suc i) n) (k ∷ ks)))
          (if_false true (contains i ks) other) in
      omega (
        arith,
        alike,
        one_each i (contains i ks) (left_in_lottery (range (suc i) n) ks)
            (left_in_lottery (range (suc i) n) (k ∷ ks)) (left-cons k ks n (suc i)),
      )
]

left-nil : (n i : ℕ) → length (left_in_lottery (range i n) []) ≡ n
unfolding left_in_lottery
left-nil zero i = refl
left-nil (suc n) i = ap suc (left-nil n (suc i))

lots_left :
    (build_tbl : List ℕ) (lots : ℕ)
    → lots ≤ length (left_in_lottery (range 0 lots) build_tbl) + length build_tbl
lots_left [] lots = omega (arith, left-nil lots 0)
lots_left (k ∷ ks) lots = omega (arith, lots_left ks lots, left-cons k ks lots 0)

-- An array that is written everywhere.
collected :
    (xs : List (Option ℕ))
    → ((j : ℕ) → j < length xs → (v : ℕ) × (get_or xs j none ≡ some v))
    → (keys : List ℕ) × (each (λ key. key) xs ≡ some keys) × (xs ≡ map some keys)
collected [] h = ([], refl, refl)
collected (none ∷ xs) h = let (v, e) = h 0 (omega arith) in absurd (cc e)
collected (some x ∷ xs) h =
    let (keys, all, same) = collected xs (λ j p. h (suc j) (omega arith)) in
    (x ∷ keys, ap (λ o. o >>= λ ys. some (x ∷ ys)) all, ap (◌∷◌ (some x)) same)

-- If no draw is past the end of its array, there is a thread, and the build table has a key and fewer keys
-- than the lottery has lots, then after any steps of the threads there are further steps after which
-- generate_input_tables with unique keys returns tables of the sizes asked for; no two keys of the build table
-- are the same, and a probe key is in the build table if and only if it was selected to be.
pub generated_tables :
    (build_tbl_size probe_tbl_size key_max rand_max num_threads : ℕ) (draw : ℕ → ℕ → ℕ)
    (selected : ℕ → Bool) (probe_draw : ℕ → ℕ → ℕ)
    → 0 < num_threads
    → 0 < build_tbl_size
    → build_tbl_size < lottery_size key_max rand_max
    → ((idx : ℕ) → draw idx (lottery_size key_max rand_max) < lottery_size key_max rand_max)
    → ((idx m : ℕ) → 0 < m → probe_draw idx m < m)
    → (schedule : List ℕ)
    → (more build_tbl probe_tbl : List ℕ) × (generate_input_tables build_tbl_size probe_tbl_size
          key_max rand_max num_threads true draw selected probe_draw
          (schedule ++ more)
        ≡ some (build_tbl, probe_tbl))
      × (length build_tbl ≡ build_tbl_size)
      × (length probe_tbl ≡ probe_tbl_size)
      × ((j k : ℕ)
          → j < build_tbl_size
          → k < build_tbl_size
          → get_or build_tbl j 0 ≡ get_or build_tbl k 0
          → j ≡ k)
      × ((idx : ℕ)
          → idx < probe_tbl_size
          → contains (get_or probe_tbl idx 0) build_tbl ≡ selected idx)
unfolding generate_input_tables
generated_tables build_tbl_size probe_tbl_size key_max rand_max num_threads draw selected probe_draw
      some_threads some_keys room draws probe_draws schedule =
    let lots = lottery_size key_max rand_max in
    let (more, filled) =
      slots_filled build_tbl_size lots rand_max num_threads draw some_threads draws (omega arith)
        schedule in
    let table =
      (after build_tbl_size lots rand_max num_threads draw (schedule ++ more)).build_tbl in
    let long : length table ≡ build_tbl_size =
      length-after build_tbl_size lots rand_max num_threads draw some_threads draws
        (schedule ++ more) in
    let (build_tbl, all, same) = collected table (λ j h. filled j (omega (arith, long, h))) in
    let size : length build_tbl ≡ build_tbl_size =
      sym (length-map some build_tbl) ∙ ap length (sym same) ∙ long in
    let left : 0 < length (left_in_lottery (range 0 lots) build_tbl) =
      omega (arith, lots_left build_tbl lots, size) in
    let probe_key = λ (idx : ℕ).
      probe_keys build_tbl lots selected probe_draw idx (omega (arith, size))
        (probe_draws idx _ left) in
    (
      more,
      build_tbl,
      map (λ idx. (probe_key idx).0) (range 0 probe_tbl_size),
      ap (λ o. o >>= probe) all
          ∙ ap (λ o. o >>= λ probe_tbl. some (build_tbl, probe_tbl))
              (each-range _ (λ idx. (probe_key idx).0) 0 probe_tbl_size
                (λ idx _ _. (probe_key idx).1)),
      size,
      length-map (λ idx. (probe_key idx).0) (range 0 probe_tbl_size)
          ∙ length-range 0 probe_tbl_size,
      λ j k p q e.
          (unique_keys build_tbl_size lots rand_max num_threads draw draws (schedule ++ more) j k
            (get_or build_tbl k 0) (entry table build_tbl same j (omega (arith, size)) ∙ ap some e)
            (entry table build_tbl same k (omega (arith, size)))).0,
      λ idx h.
          ap (λ key. contains key build_tbl)
            (get_or-map-range (λ idx. (probe_key idx).0) 0 0 probe_tbl_size idx h
              ∙ ap (λ idx. (probe_key idx).0) {x = 0 + idx} (omega arith))
          ∙ (probe_key idx).2,
    )
  where
    probe : List ℕ → Option (List ℕ × List ℕ)
    probe build_tbl =
        each
          (init_probe_tbl build_tbl
            (left_in_lottery (range 0 (lottery_size key_max rand_max)) build_tbl) selected
            probe_draw)
          (range 0 probe_tbl_size)
        >>= λ probe_tbl. some (build_tbl, probe_tbl)

    entry :
        (table : List (Option ℕ)) (build_tbl : List ℕ) (same : table ≡ map some build_tbl) (j : ℕ)
        → j < length build_tbl
        → get_or table j none ≡ some (get_or build_tbl j 0)
    entry table build_tbl same j h =
        ap (λ xs. get_or xs j none) same ∙ get_or-map some build_tbl j 0 none h

-- A key that has not been written.
not_collected : (xs : List (Option ℕ)) → 0 < count_none xs → each (λ key. key) xs ≡ none
not_collected [] h = absurd (omega arith)
not_collected (none ∷ xs) h = refl
not_collected (some x ∷ xs) h = ap (λ o. o >>= λ ys. some (x ∷ ys)) (not_collected xs h)

-- If no draw is past the end of the lottery, there is a thread, and there are fewer lots than keys to be
-- made, then the threads do not end, whatever steps they take: generate_input_tables with unique keys
-- does not return.
pub too_few_lots :
    (build_tbl_size probe_tbl_size key_max rand_max num_threads : ℕ) (draw : ℕ → ℕ → ℕ)
    (selected : ℕ → Bool) (probe_draw : ℕ → ℕ → ℕ)
    → 0 < num_threads
    → lottery_size key_max rand_max < build_tbl_size
    → ((idx : ℕ) → draw idx (lottery_size key_max rand_max) < lottery_size key_max rand_max)
    → (schedule : List ℕ)
    → generate_input_tables build_tbl_size probe_tbl_size key_max rand_max num_threads true draw
        selected probe_draw schedule
      ≡ none
unfolding generate_input_tables
too_few_lots build_tbl_size probe_tbl_size key_max rand_max num_threads draw selected probe_draw
      some_threads few draws schedule =
    let lots = lottery_size key_max rand_max in
    let after_all = after build_tbl_size lots rand_max num_threads draw schedule in
    let balance : count_none after_all.build_tbl + lots
        ≡ count_some after_all.lottery + build_tbl_size =
      balance-after build_tbl_size lots rand_max num_threads draw some_threads draws schedule in
    ap (λ o. o >>= probe) (not_collected after_all.build_tbl (omega (arith, balance)))
  where
    probe : List ℕ → Option (List ℕ × List ℕ)
    probe build_tbl =
        each
          (init_probe_tbl build_tbl
            (left_in_lottery (range 0 (lottery_size key_max rand_max)) build_tbl) selected
            probe_draw)
          (range 0 probe_tbl_size)
        >>= λ probe_tbl. some (build_tbl, probe_tbl)
