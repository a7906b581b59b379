-- ===== src/GenerateDataset/Filled.antt =====
-- The threads of init_build_tbl fill the build table.
use native.Mathlib.Nat.{mod-lt, mod-eq_of_lt, mod_self}
use distributed_join.Prelude.{
  length, ℕ, zero, suc, ◌+◌, ◌-◌, ◌%◌, ◌<◌, ◌≤◌, ◌≡◌, refl, sym, ap, ◌∙◌, Bool, true, false, Option,
  none, some, List, [], ◌∷◌, ◌++◌, ◌==◌, if◌then◌else◌, get_or, set, inl, inr, ◌⊎◌, arith,
  ℕ_discrete, get_or-set_self, subst, some_inj, dec_lt,
}
use distributed_join.GenerateDataset.{
  Phase, drawing, reading, swapping, finished, Kernel, next_lot, goto, read_lot, swap_lot,
  step_from, init_build_tbl, interleaved, launched,
}
use distributed_join.GenerateDataset.Unique.{step-IsDrawn, launched-IsDrawn, after}
use distributed_join.GenerateDataset.Counts.{
  count_some, count_none, count_none-set, a_free_lot, an_empty_slot, all_written, lot_cases,
}
use distributed_join.GenerateDataset.Shared
use distributed_join.GenerateDataset.Shared.{busy_with, step-IsShared, launched-IsShared}

module _ (build_tbl_size lots rand_max num_threads : ℕ) (draw : ℕ → ℕ → ℕ)
    (some_threads : 0 < num_threads) where
  abbrev busy : Kernel → ℕ → Option ℕ
  busy = Shared.busy build_tbl_size lots rand_max num_threads draw some_threads

  abbrev IsGood : Kernel → Type 0
  IsGood = Shared.IsGood build_tbl_size lots rand_max num_threads draw some_threads

  module _ (draws : (idx : ℕ) → draw idx lots < lots) where
    abbrev step : ℕ → Kernel → Kernel
    step = init_build_tbl build_tbl_size lots rand_max num_threads true draw

    abbrev run : List ℕ → Kernel → Kernel
    run = interleaved build_tbl_size lots rand_max num_threads true draw

    step-IsGood : (s : Kernel) (thread : ℕ) → IsGood s → IsGood (step thread s)
    unfolding init_build_tbl
    step-IsGood s thread (f, d) = (
      step-IsDrawn build_tbl_size lots rand_max num_threads draw draws s thread _ refl f,
      step-IsShared build_tbl_size lots rand_max num_threads draw some_threads s thread _ refl f d,
    )

    -- Some steps write a key.
    abbrev Writes : Kernel → Type 0
    Writes s =
        (schedule : List ℕ) × (count_none (run schedule s).build_tbl + 1 ≡ count_none s.build_tbl)
        × IsGood (run schedule s)

    module _ (thread idx : ℕ) where
      -- A step before the others.
      prepend :
          (s s' : Kernel) → step thread s ≡ s' → s'.build_tbl ≡ s.build_tbl → Writes s' → Writes s
      unfolding interleaved
      prepend s s' e same (schedule, count, good) = (
        thread ∷ schedule,
        ap (λ u. count_none (run schedule u).build_tbl + 1) e ∙ count ∙ ap count_none same,
        subst (λ u. IsGood (run schedule u)) (sym e) good,
      )

      here_is :
          (s : Kernel) (p : Phase)
          → IsGood s
          → busy s thread ≡ some idx
          → get_or (set s.threads thread p) thread finished ≡ p
      here_is s p (f, d) at = get_or-set_self s.threads thread p finished (
          omega
            (arith, d.many, (d.works thread idx at).0, mod-lt idx {m = num_threads} some_threads))

      -- The swap of a lot that is there.
      swap :
          (s : Kernel) (lottery_idx v old : ℕ)
          → IsGood s
          → get_or s.threads thread finished ≡ swapping idx lottery_idx v
          → get_or s.lottery lottery_idx none ≡ some old
          → Writes s
      unfolding interleaved init_build_tbl
      swap s lottery_idx v old (f, d) e g =
          let (own, inside, empty) = d.works thread idx (ap busy_with e) in
          (
            thread ∷ [],
            ap (λ (u : Kernel). count_none u.build_tbl + 1) stepped
                ∙ ap (λ (xs : List (Option ℕ)). count_none (set xs idx (some old)) + 1)
                    (kept_by (old == v))
                ∙ count_none-set s.build_tbl idx old (omega (arith, d.slots))
                    (empty idx (omega arith) own),
            step-IsGood s thread (f, d),
          )
        where
          stepped :
              step thread s
              ≡ swap_lot build_tbl_size lots rand_max num_threads true draw thread idx lottery_idx v
                  (some old)
                  s
          stepped =
              ap (λ p. step_from build_tbl_size lots rand_max num_threads true draw p thread s) e
              ∙ ap
                  (λ o.
                    swap_lot build_tbl_size lots rand_max num_threads true draw thread idx
                      lottery_idx v o s)
                  g

          kept_by :
              (b : Bool)
              → (if b then record s { lottery = set s.lottery lottery_idx none } else s).build_tbl
                ≡ s.build_tbl
          kept_by true = refl
          kept_by false = refl

      read_is :
          (s : Kernel) (lottery_idx : ℕ) (o : Option ℕ)
          → get_or s.threads thread finished ≡ reading idx lottery_idx
          → get_or s.lottery lottery_idx none ≡ o
          → step thread s
            ≡ read_lot build_tbl_size lots rand_max num_threads true draw thread idx lottery_idx o s
      unfolding init_build_tbl
      read_is s lottery_idx o e g =
          ap (λ p. step_from build_tbl_size lots rand_max num_threads true draw p thread s) e
          ∙ ap
              (λ o.
                read_lot build_tbl_size lots rand_max num_threads true draw thread idx lottery_idx o
                  s)
              g

      abbrev at_phase : Phase → Kernel → Kernel
      at_phase p s = goto build_tbl_size lots rand_max num_threads true draw thread p s

      abbrev next : ℕ → ℕ
      next lottery_idx = next_lot build_tbl_size lots rand_max num_threads true draw lottery_idx

      found :
          (s : Kernel) (lottery_idx old : ℕ)
          → IsGood s
          → get_or s.threads thread finished ≡ reading idx lottery_idx
          → get_or s.lottery lottery_idx none ≡ some old
          → Writes s
      found s lottery_idx old good e g =
          prepend s (at_phase (swapping idx lottery_idx old) s)
            (read_is s lottery_idx (some old) e g) refl
            (swap (at_phase (swapping idx lottery_idx old) s) lottery_idx old old
              (subst IsGood (read_is s lottery_idx (some old) e g) (step-IsGood s thread good))
              (here_is s (swapping idx lottery_idx old) good (ap busy_with e)) g)

      -- The thread goes through the lottery to the lot `i`, `d` places further on, at most.
      search_lot :
          (d : ℕ) (s : Kernel) (lottery_idx i w : ℕ)
          → IsGood s
          → get_or s.threads thread finished ≡ reading idx lottery_idx
          → lottery_idx < lots
          → i < lots
          → get_or s.lottery i none ≡ some w
          → (lottery_idx + d ≡ i) ⊎ (lottery_idx + d ≡ i + lots)
          → Writes s
      search_lot zero s lottery_idx i w good e inside below there (inr far) = absurd (omega arith)
      search_lot zero s lottery_idx i w good e inside below there (inl near) =
          found s lottery_idx w good e
            (ap (λ k. get_or s.lottery k none) {x = lottery_idx} {y = i} (omega arith) ∙ there)
      search_lot (suc d) s lottery_idx i w good e inside below there away =
          elim (lot_cases (get_or s.lottery lottery_idx none)) [
            | inr (old, g) ↦ found s lottery_idx old good e g
            | inl g ↦
                prepend s (at_phase (reading idx (next lottery_idx)) s)
                  (read_is s lottery_idx none e g) refl
                  (search_lot d (at_phase (reading idx (next lottery_idx)) s) (next lottery_idx) i w
                    (subst IsGood (read_is s lottery_idx none e g) (step-IsGood s thread good))
                    (here_is s (reading idx (next lottery_idx)) good (ap busy_with e))
                    (mod-lt (lottery_idx + 1) {m = lots} (omega arith)) below there
                    (nearer d lottery_idx i inside below away))
          ]
        where
          nearer :
              (d lottery_idx i : ℕ)
              → lottery_idx < lots
              → i < lots
              → (lottery_idx + suc d ≡ i) ⊎ (lottery_idx + suc d ≡ i + lots)
              → (next lottery_idx + d ≡ i) ⊎ (next lottery_idx + d ≡ i + lots)
          nearer d lottery_idx i inside below away = elim (ℕ_discrete (lottery_idx + 1) lots) [
            | yes last ↦
                let zero_next : next lottery_idx ≡ 0 = ap (λ v. v % lots) last ∙ mod_self lots in
                elim away [ inl near ↦ absurd (omega arith) | inr far ↦ inl (omega arith) ]
            | no more ↦
                let same : next lottery_idx ≡ lottery_idx + 1 = mod-eq_of_lt (omega arith) in
                elim away [ inl near ↦ inl (omega arith) | inr far ↦ inr (omega arith) ]
          ]

      search_from :
          (s : Kernel) (lottery_idx i w : ℕ)
          → IsGood s
          → get_or s.threads thread finished ≡ reading idx lottery_idx
          → lottery_idx < lots
          → i < lots
          → get_or s.lottery i none ≡ some w
          → Writes s
      search_from s lottery_idx i w good e inside below there = elim (dec_lt i lottery_idx) [
        | yes past ↦
            search_lot (i + lots - lottery_idx) s lottery_idx i w good e inside below there
              (inr (omega arith))
        | no ahead ↦
            search_lot (i - lottery_idx) s lottery_idx i w good e inside below there
              (inl (omega arith))
      ]

      -- The thread has seen that the lot is taken, and goes on with the next one.
      search_next :
          (s : Kernel) (lottery_idx i w : ℕ)
          → IsGood s
          → busy s thread ≡ some idx
          → step thread s ≡ at_phase (reading idx (next lottery_idx)) s
          → i < lots
          → get_or s.lottery i none ≡ some w
          → Writes s
      search_next s lottery_idx i w good at stepped below there =
          prepend s (at_phase (reading idx (next lottery_idx)) s) stepped refl (
            search_from (at_phase (reading idx (next lottery_idx)) s) (next lottery_idx) i w
              (subst IsGood stepped (step-IsGood s thread good))
              (here_is s (reading idx (next lottery_idx)) good at)
              (mod-lt (lottery_idx + 1) {m = lots} (omega arith)) below there)

      -- A thread that works for a slot writes a key, if only it takes steps.
      writes :
          (s : Kernel) (i w : ℕ) (p : Phase)
          → IsGood s
          → get_or s.threads thread finished ≡ p
          → busy_with p ≡ some idx
          → i < lots
          → get_or s.lottery i none ≡ some w
          → Writes s
      unfolding init_build_tbl
      writes s i w finished good e at below there = absurd (cc at)
      writes s i w (drawing slot) good e at below there =
          let here : get_or s.threads thread finished ≡ drawing idx =
            e ∙ ap drawing (some_inj slot idx at) in
          let stepped : step thread s ≡ at_phase (reading idx (draw idx lots)) s =
            ap (λ p. step_from build_tbl_size lots rand_max num_threads true draw p thread s)
              here in
          prepend s (at_phase (reading idx (draw idx lots)) s) stepped refl (
            search_from (at_phase (reading idx (draw idx lots)) s) (draw idx lots) i w
              (subst IsGood stepped (step-IsGood s thread good))
              (here_is s (reading idx (draw idx lots)) good (ap busy_with here)) (draws idx) below
              there)
      writes s i w (reading slot lottery_idx) good e at below there =
          let here : get_or s.threads thread finished ≡ reading idx lottery_idx =
            e ∙ ap (λ k. reading k lottery_idx) (some_inj slot idx at) in
          elim (lot_cases (get_or s.lottery lottery_idx none)) [
            | inr (old, g) ↦ found s lottery_idx old good here g
            | inl g ↦
                search_next s lottery_idx i w good (ap busy_with here)
                  (read_is s lottery_idx none here g) below there
          ]
      writes s i w (swapping slot lottery_idx v) good e at below there =
          let here : get_or s.threads thread finished ≡ swapping idx lottery_idx v =
            e ∙ ap (λ k. swapping k lottery_idx v) (some_inj slot idx at) in
          elim (lot_cases (get_or s.lottery lottery_idx none)) [
            | inr (old, g) ↦ swap s lottery_idx v old good here g
            | inl g ↦
                search_next s lottery_idx i w good (ap busy_with here)
                  (ap (λ p. step_from build_tbl_size lots rand_max num_threads true draw p thread s)
                      here
                    ∙ ap
                        (λ o.
                          swap_lot build_tbl_size lots rand_max num_threads true draw thread idx
                            lottery_idx v o s)
                        g)
                  below there
          ]

    run-IsGood : (schedule : List ℕ) (s : Kernel) → IsGood s → IsGood (run schedule s)
    unfolding interleaved
    run-IsGood [] s good = good
    run-IsGood (thread ∷ schedule) s good =
        run-IsGood schedule (step thread s) (step-IsGood s thread good)

    run-append :
        (before later : List ℕ) (s : Kernel) → run (before ++ later) s ≡ run later (run before s)
    unfolding interleaved
    run-append [] later s = refl
    run-append (thread ∷ before) later s = run-append before later (step thread s)

    -- As long as a slot is empty, some steps write a key.
    fill :
        (room : build_tbl_size ≤ lots) (m : ℕ) (s : Kernel)
        → IsGood s
        → count_none s.build_tbl ≡ m
        → (schedule : List ℕ) × (count_none (run schedule s).build_tbl ≡ 0)
          × IsGood (run schedule s)
    unfolding interleaved
    fill room zero s good e = ([], e, good)
    fill room (suc m) s (f, d) e =
        let (j, inside, clear) = an_empty_slot s.build_tbl (omega arith) in
        let (i, w, below, there) = a_free_lot s.lottery (omega (arith, d.balance, room)) in
        let (idx, at, _) = d.waits j (omega (arith, d.slots)) clear in
        let (one, count, good) =
          writes (j % num_threads) idx s i w _ (f, d) refl at (omega (arith, d.places)) there in
        let (rest, empty, last) = fill room m (run one s) good (omega arith) in
        (
          one ++ rest,
          ap (λ (u : Kernel). count_none u.build_tbl) (run-append one rest s) ∙ empty,
          subst IsGood (sym (run-append one rest s)) last,
        )

  after-IsGood :
      (draws : (idx : ℕ) → draw idx lots < lots) (schedule : List ℕ)
      → IsGood (after build_tbl_size lots rand_max num_threads draw schedule)
  after-IsGood draws schedule = run-IsGood draws schedule _ (
    launched-IsDrawn build_tbl_size lots rand_max num_threads draw,
    launched-IsShared build_tbl_size lots rand_max num_threads draw some_threads,
  )

  pub length-after :
      (draws : (idx : ℕ) → draw idx lots < lots) (schedule : List ℕ)
      → length (after build_tbl_size lots rand_max num_threads draw schedule).build_tbl
        ≡ build_tbl_size
  length-after draws schedule = (after-IsGood draws schedule).1.slots

  pub balance-after :
      (draws : (idx : ℕ) → draw idx lots < lots) (schedule : List ℕ)
      → count_none (after build_tbl_size lots rand_max num_threads draw schedule).build_tbl + lots
        ≡ count_some (after build_tbl_size lots rand_max num_threads draw schedule).lottery
          + build_tbl_size
  balance-after draws schedule = (after-IsGood draws schedule).1.balance

  -- If no draw is past the end of the lottery, there is a thread, and there are as many lots as slots,
  -- then after any steps of the threads there are further steps after which each slot of the build
  -- table has a key.
  pub slots_filled :
      (draws : (idx : ℕ) → draw idx lots < lots) (room : build_tbl_size ≤ lots) (schedule : List ℕ)
      → (more : List ℕ) × ((j : ℕ)
          → j < build_tbl_size
          → (key : ℕ) × (get_or
                (after build_tbl_size lots rand_max num_threads draw (schedule ++ more)).build_tbl
                j
                none
              ≡ some key))
  slots_filled draws room schedule =
      let (more, empty, (_, d)) =
        fill draws room _ (after build_tbl_size lots rand_max num_threads draw schedule)
          (after-IsGood draws schedule) refl in
      (
        more,
        λ j h.
            let (key, e) = all_written _ empty j (omega (arith, d.slots)) in
            (
              key,
              ap (λ (u : Kernel). get_or u.build_tbl j none)
                    (run-append draws schedule more
                      (launched build_tbl_size lots rand_max num_threads true draw))
                  ∙ e,
            ),
      )
