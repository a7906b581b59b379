-- ===== src/Join/Threads/Ends.antt =====
-- The two threads do not wait for one another without end.
use distributed_join.Prelude.{
  ℕ, zero, suc, ◌+◌, ◌*◌, ◌-◌, ◌<◌, ◌≡◌, refl, sym, ap, subst, arith, some, List, inl, inr, ◌⊎◌,
}
use distributed_join.Join.{Cudf, local_join_helper}
use distributed_join.Join.Threads.{
  MainPc, launch_left, launch_right, set_flag, waiting, returned, JoinPc, polling, joining,
  finished, Threads, Step, launches_left, launches_right, sets_flag, returns, sees_flag, joins,
  Reach, here, further,
}
use distributed_join.Join.Threads.Invariant.{
  Holds, next_batch_cases, next_join_cases, Inside, IsReady, flagged,
}
use distributed_join.Join.Threads.Race.{Reached, Reach-Holds, joined_results}

module _ {L R : Type 0} (cudf : Cudf L R) (over_decom_factor : ℕ) (received_left : ℕ → List L)
    (received_right : ℕ → List R) where
  abbrev n : ℕ
  n = over_decom_factor

  -- The statements that are left of each thread.
  abbrev main_left : MainPc → ℕ
  main_left (launch_left i) = 3 * (n - i) + 1
  main_left (launch_right i) = 3 * (n - i)
  main_left (set_flag i) = 3 * (n - i) - 1
  main_left waiting = 1
  main_left returned = 0

  abbrev joiner_left : JoinPc → ℕ
  joiner_left (polling i) = 2 * (n - i)
  joiner_left (joining i) = 2 * (n - i) - 1
  joiner_left finished = 0

  abbrev remaining : Threads L R → ℕ
  remaining s = main_left s.main + joiner_left s.joiner

  abbrev Steps : Threads L R → Threads L R → Type 0
  Steps = Step cudf over_decom_factor received_left received_right

  abbrev HoldsIn : Threads L R → Type 0
  HoldsIn = Holds cudf over_decom_factor received_left received_right

  abbrev InsideOf : MainPc → Type 0
  InsideOf = Inside cudf over_decom_factor received_left received_right

  abbrev IsReadyFor : MainPc → JoinPc → Type 0
  IsReadyFor = IsReady cudf over_decom_factor received_left received_right

  -- Each step leaves fewer.
  Step-remaining : (s t : Threads L R) → HoldsIn s → Steps s t → remaining t < remaining s
  Step-remaining s t v (launches_left i e to) =
      let inside : i < n = subst InsideOf e v.inside in
      subst (λ t. remaining t < remaining s) (sym to) (omega (arith, ap main_left e))
  Step-remaining s t v (launches_right i e to) =
      let inside : i < n = subst InsideOf e v.inside in
      subst (λ t. remaining t < remaining s) (sym to) (omega (arith, ap main_left e))
  Step-remaining s t v (sets_flag i e to) =
      let inside : i < n = subst InsideOf e v.inside in
      let fewer =
        next_batch_cases cudf over_decom_factor received_left received_right
          (λ m. main_left m < main_left (set_flag i)) (i + 1) (λ more. omega arith)
          (λ done. omega arith) in
      subst (λ t. remaining t < remaining s) (sym to) (omega (arith, fewer, ap main_left e))
  Step-remaining s t v (returns e q to) =
      subst (λ t. remaining t < remaining s) (sym to) (omega (arith, ap main_left e))
  Step-remaining s t v (sees_flag i e set to) =
      let inside : i < n = subst (IsReadyFor s.main) e v.ready in
      subst (λ t. remaining t < remaining s) (sym to) (omega (arith, ap joiner_left e))
  Step-remaining s t v (joins i e to) =
      let ready : (i < n) × (i < _) = subst (IsReadyFor s.main) e v.ready in
      let fewer =
        next_join_cases cudf over_decom_factor received_left received_right
          (λ j. joiner_left j < joiner_left (joining i)) (i + 1) (λ more. omega (arith, ready.0))
          (λ done. omega (arith, ready.0)) in
      subst (λ t. remaining t < remaining s) (sym to) (omega (arith, fewer, ap joiner_left e))

  -- Unless the function has returned, one of the threads has a step.
  next_step : (s : Threads L R) → HoldsIn s → (s.main ≡ returned) ⊎ ((t : Threads L R) × Steps s t)
  next_step s v = by_main s.main refl
    where
      by_joiner : s.main ≡ waiting → (j : JoinPc) → s.joiner ≡ j → (t : Threads L R) × Steps s t
      by_joiner e (polling i) q =
          let inside : i < n = subst (IsReadyFor s.main) q v.ready in
          (
            _,
            sees_flag i q
                (v.set i (
                  subst (λ m. i < flagged cudf over_decom_factor received_left received_right m)
                    (sym e) inside))
                refl,
          )
      by_joiner e (joining i) q = (_, joins i q refl)
      by_joiner e finished q = (_, returns e q refl)

      by_main : (m : MainPc) → s.main ≡ m → (s.main ≡ returned) ⊎ ((t : Threads L R) × Steps s t)
      by_main (launch_left i) e = inr (_, launches_left i e refl)
      by_main (launch_right i) e = inr (_, launches_right i e refl)
      by_main (set_flag i) e = inr (_, sets_flag i e refl)
      by_main waiting e = inr (by_joiner e s.joiner refl)
      by_main returned e = inl e

  prepend :
      (s : Threads L R) {t u : Threads L R}
      → Steps s t
      → Reach cudf over_decom_factor received_left received_right t u
      → Reach cudf over_decom_factor received_left received_right s u
  prepend s st here = further here st
  prepend s st (further r st') = further (prepend s st r) st'

  module _ (left : ℕ → List L) (right : ℕ → List R) where
    abbrev ReachedIn : Threads L R → Type 0
    ReachedIn = Reached cudf over_decom_factor received_left received_right left right

    ends_within :
        (k : ℕ) (s : Threads L R)
        → remaining s < k
        → ReachedIn s
        → (t : Threads L R) × Reach cudf over_decom_factor received_left received_right s t
          × ReachedIn t
          × (t.main ≡ returned)
    ends_within zero s h r = absurd (omega arith)
    ends_within (suc k) s h r =
        let v = Reach-Holds cudf over_decom_factor received_left received_right left right s r in
        elim (next_step s v) [
          | inl ended ↦ (s, here, r, ended)
          | inr (t, st) ↦
              let (u, onward, reached, ended) =
                ends_within k t (omega (arith, Step-remaining s t v st)) (further r st) in
              (u, prepend s st onward, reached, ended)
        ]

    -- From any state of the two threads their steps lead on to the return of the function, where each
    -- batch has the result of its local join on the tables that were received.
    pub threads_end :
        (s : Threads L R)
        → ReachedIn s
        → (t : Threads L R) × Reach cudf over_decom_factor received_left received_right s t
          × (t.main ≡ returned)
          × ((i : ℕ)
              → i < over_decom_factor
              → t.batch_join_results i
                ≡ some (local_join_helper cudf (received_left i) (received_right i)))
    threads_end s r =
        let (t, onward, reached, ended) = ends_within (suc (remaining s)) s (omega arith) r in
        (
          t,
          onward,
          ended,
          λ i h.
              joined_results cudf over_decom_factor received_left received_right left right t i
                reached ended h,
        )
