-- ===== src/Join/Threads/Race.antt =====
-- The joining thread reads a batch only when it has been communicated, and the results do not
-- depend on how the threads interleave.
use distributed_join.Prelude.{ℕ, ◌<◌, ◌≡◌, sym, subst, arith, Bool, Option, some, List}
use distributed_join.Join.{Cudf, Joined, local_join_helper}
use distributed_join.Join.Threads.{
  MainPc, launch_left, launch_right, set_flag, waiting, returned, JoinPc, polling, joining, Threads,
  Step, launches_left, launches_right, sets_flag, returns, sees_flag, joins, Reach, here, further,
  launched,
}
use distributed_join.Join.Threads.Invariant.{
  Inv, Holds, launched-Holds, left_step, right_step, flag_step, see_step, join_step, return_step,
  flagged, flagged-lefts, flagged-rights,
}

module _ {L R : Type 0} (cudf : Cudf L R) (over_decom_factor : ℕ) (received_left : ℕ → List L)
    (received_right : ℕ → List R) where
  abbrev InvOf :
      MainPc
      → JoinPc
      → (ℕ → List L)
      → (ℕ → List R)
      → (ℕ → Bool)
      → (ℕ → Option (Joined L R))
      → Type 0
  InvOf = Inv cudf over_decom_factor received_left received_right

  abbrev HoldsIn : Threads L R → Type 0
  HoldsIn = Holds cudf over_decom_factor received_left received_right

  module _ (s : Threads L R) where
    main_at :
        (m : MainPc)
        → s.main ≡ m
        → HoldsIn s
        → InvOf m s.joiner s.communicated_left s.communicated_right s.flags s.batch_join_results
    main_at m e =
        subst
          (λ m.
            InvOf m s.joiner s.communicated_left s.communicated_right s.flags s.batch_join_results)
          e

    joiner_at :
        (j : JoinPc)
        → s.joiner ≡ j
        → HoldsIn s
        → InvOf s.main j s.communicated_left s.communicated_right s.flags s.batch_join_results
    joiner_at j e =
        subst
          (λ j.
            InvOf s.main j s.communicated_left s.communicated_right s.flags s.batch_join_results)
          e

    pub Step-Holds :
        (t : Threads L R)
        → Step cudf over_decom_factor received_left received_right s t
        → HoldsIn s
        → HoldsIn t
    Step-Holds t (launches_left i e to) v = subst HoldsIn (sym to) (
        left_step cudf over_decom_factor received_left received_right s.main s.joiner
          s.communicated_left s.communicated_right s.flags s.batch_join_results i
          (main_at (launch_left i) e v))
    Step-Holds t (launches_right i e to) v = subst HoldsIn (sym to) (
        right_step cudf over_decom_factor received_left received_right s.main s.joiner
          s.communicated_left s.communicated_right s.flags s.batch_join_results i
          (main_at (launch_right i) e v))
    Step-Holds t (sets_flag i e to) v = subst HoldsIn (sym to) (
        flag_step cudf over_decom_factor received_left received_right s.main s.joiner
          s.communicated_left s.communicated_right s.flags s.batch_join_results i
          (main_at (set_flag i) e v))
    Step-Holds t (returns e q to) v = subst HoldsIn (sym to) (
        subst
          (λ j.
            InvOf returned j s.communicated_left s.communicated_right s.flags s.batch_join_results)
          (sym q)
          (return_step cudf over_decom_factor received_left received_right s.communicated_left
            s.communicated_right s.flags s.batch_join_results
            (subst
              (λ j.
                InvOf waiting j s.communicated_left s.communicated_right s.flags
                  s.batch_join_results)
              q (main_at waiting e v))))
    Step-Holds t (sees_flag i e set to) v = subst HoldsIn (sym to) (
        see_step cudf over_decom_factor received_left received_right s.main s.joiner
          s.communicated_left s.communicated_right s.flags s.batch_join_results i set
          (joiner_at (polling i) e v))
    Step-Holds t (joins i e to) v = subst HoldsIn (sym to) (
        join_step cudf over_decom_factor received_left received_right s.main s.joiner
          s.communicated_left s.communicated_right s.flags s.batch_join_results i
          (joiner_at (joining i) e v))

  module _ (left : ℕ → List L) (right : ℕ → List R) where
    abbrev pub Reached : Threads L R → Type 0
    Reached =
        Reach cudf over_decom_factor received_left received_right
          (launched cudf over_decom_factor received_left received_right left right)

    pub Reach-Holds : (t : Threads L R) → Reached t → HoldsIn t
    Reach-Holds t here =
        launched-Holds cudf over_decom_factor received_left received_right left right
    Reach-Holds t (further {t = u} r st) = Step-Holds u t st (Reach-Holds u r)

    writing :
        (m : MainPc) (i : ℕ)
        → i < flagged cudf over_decom_factor received_left received_right m
        → ¬ (m ≡ launch_left i) × ¬ (m ≡ launch_right i)
    writing m i h = (
      λ e. absurd (
          omega (
            arith,
            subst (λ m. i < flagged cudf over_decom_factor received_left received_right m) e h,
          )),
      λ e. absurd (
          omega (
            arith,
            subst (λ m. i < flagged cudf over_decom_factor received_left received_right m) e h,
          )),
    )

    -- Whenever the joining thread joins a batch, both its tables hold what has been received, and the
    -- other thread is at neither of the statements that write them.
    pub no_race :
        (t : Threads L R) (i : ℕ)
        → Reached t
        → t.joiner ≡ joining i
        → (t.communicated_left i ≡ received_left i)
          × (t.communicated_right i ≡ received_right i)
          × ¬ (t.main ≡ launch_left i)
          × ¬ (t.main ≡ launch_right i)
    no_race t i r e =
        let v = joiner_at t (joining i) e (Reach-Holds t r) in
        let (not_left, not_right) = writing t.main i v.ready.1 in
        (
          v.written_left i (
              omega (
                arith,
                v.ready.1,
                flagged-lefts cudf over_decom_factor received_left received_right t.main,
              )),
          v.written_right i (
              omega (
                arith,
                v.ready.1,
                flagged-rights cudf over_decom_factor received_left received_right t.main,
              )),
          not_left,
          not_right,
        )

    -- When the function goes on behind the join of the threads, each batch has the result of its local
    -- join on the tables that were received, in whichever order the threads have run.
    pub joined_results :
        (t : Threads L R) (i : ℕ)
        → Reached t
        → t.main ≡ returned
        → i < over_decom_factor
        → t.batch_join_results i
          ≡ some (local_join_helper cudf (received_left i) (received_right i))
    joined_results t i r e h =
        let v = main_at t returned e (Reach-Holds t r) in
        v.results_are i (omega (arith, v.ended, h))
