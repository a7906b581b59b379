-- ===== src/Join/Threads/Invariant.antt =====
-- What holds whenever the two threads have run, and that each step keeps it.
use distributed_join.Prelude.{
  ℕ, ◌+◌, ◌≤◌, ◌<◌, ◌≡◌, refl, sym, ap, ap₂, ◌∙◌, subst, arith, Bool, true, false, Option, none,
  some, List, ltb, ◌==◌, if◌then◌else◌, if_true, if_false, inl, inr, Bool-cases, ==_iff,
}
use distributed_join.Join.{Cudf, Joined, local_join_helper}
use distributed_join.Join.Threads.{
  MainPc, launch_left, launch_right, set_flag, waiting, returned, JoinPc, polling, joining,
  finished, Threads, update, next_batch, next_join, launched,
}

module _ {L R : Type 0} (cudf : Cudf L R) (over_decom_factor : ℕ) (received_left : ℕ → List L)
    (received_right : ℕ → List R) where
  abbrev pub n : ℕ
  n = over_decom_factor

  -- How many batches have been written to the left table, to the right one, and flagged.
  abbrev pub lefts : MainPc → ℕ
  lefts (launch_left i) = i
  lefts (launch_right i) = i + 1
  lefts (set_flag i) = i + 1
  lefts waiting = n
  lefts returned = n

  abbrev pub rights : MainPc → ℕ
  rights (launch_left i) = i
  rights (launch_right i) = i
  rights (set_flag i) = i + 1
  rights waiting = n
  rights returned = n

  abbrev pub flagged : MainPc → ℕ
  flagged (launch_left i) = i
  flagged (launch_right i) = i
  flagged (set_flag i) = i
  flagged waiting = n
  flagged returned = n

  abbrev pub joined : JoinPc → ℕ
  joined (polling i) = i
  joined (joining i) = i
  joined finished = n

  abbrev pub Inside : MainPc → Type 0
  Inside (launch_left i) = i < n
  Inside (launch_right i) = i < n
  Inside (set_flag i) = i < n
  Inside waiting = Unit {0}
  Inside returned = Unit {0}

  -- A batch that is polled for exists, and one that is joined is flagged.
  abbrev pub IsReady : MainPc → JoinPc → Type 0
  IsReady m (polling i) = i < n
  IsReady m (joining i) = (i < n) × (i < flagged m)
  IsReady m finished = Unit {0}

  abbrev pub HasJoined : MainPc → JoinPc → Type 0
  HasJoined returned j = joined j ≡ n
  HasJoined _ j = Unit {0}

  abbrev pub result : ℕ → Joined L R
  result i = local_join_helper cudf (received_left i) (received_right i)

  pub record Inv (m : MainPc) (j : JoinPc) (left : ℕ → List L) (right : ℕ → List R)
      (flags : ℕ → Bool) (results : ℕ → Option (Joined L R)) : Type 0 where
    pub inside : Inside m
    pub ready : IsReady m j
    pub written_left : (i : ℕ) → i < lefts m → left i ≡ received_left i
    pub written_right : (i : ℕ) → i < rights m → right i ≡ received_right i
    pub set : (i : ℕ) → i < flagged m → flags i ≡ true
    pub not_set : (i : ℕ) → flags i ≡ true → i < flagged m
    pub results_are : (i : ℕ) → i < joined j → results i ≡ some (result i)
    pub ended : HasJoined m j

  abbrev pub Holds : Threads L R → Type 0
  Holds s =
      Inv s.main s.joiner s.communicated_left s.communicated_right s.flags s.batch_join_results

  pub launched-Holds :
      (left : ℕ → List L) (right : ℕ → List R)
      → Holds (launched cudf n received_left received_right left right)
  launched-Holds left right = elim (Bool-cases (ltb 0 n)) [
    | inl some_batch ↦
        subst
          (λ b.
            Inv (if b then launch_left 0 else waiting) (if b then polling 0 else finished) left
              right (λ i. false) (λ i. none))
          (sym some_batch)
          (record {
            inside = ground arith;
            ready = ground arith;
            written_left = λ i h. absurd (omega arith);
            written_right = λ i h. absurd (omega arith);
            set = λ i h. absurd (omega arith);
            not_set = λ i h. cc;
            results_are = λ i h. absurd (omega arith);
            ended = tt;
          })
    | inr no_batch ↦
        subst
          (λ b.
            Inv (if b then launch_left 0 else waiting) (if b then polling 0 else finished) left
              right (λ i. false) (λ i. none))
          (sym no_batch)
          (record {
            inside = tt;
            ready = tt;
            written_left = λ i h. absurd (ground arith);
            written_right = λ i h. absurd (ground arith);
            set = λ i h. absurd (ground arith);
            not_set = λ i h. cc;
            results_are = λ i h. absurd (ground arith);
            ended = tt;
          })
  ]

  IsReady-mono : (m m' : MainPc) (j : JoinPc) → flagged m ≤ flagged m' → IsReady m j → IsReady m' j
  IsReady-mono m m' (polling i) h r = r
  IsReady-mono m m' (joining i) h (r, q) = (r, omega arith)
  IsReady-mono m m' finished h r = r

  pub flagged-lefts : (m : MainPc) → flagged m ≤ lefts m
  flagged-lefts (launch_left i) = omega arith
  flagged-lefts (launch_right i) = omega arith
  flagged-lefts (set_flag i) = omega arith
  flagged-lefts waiting = omega arith
  flagged-lefts returned = omega arith

  pub flagged-rights : (m : MainPc) → flagged m ≤ rights m
  flagged-rights (launch_left i) = omega arith
  flagged-rights (launch_right i) = omega arith
  flagged-rights (set_flag i) = omega arith
  flagged-rights waiting = omega arith
  flagged-rights returned = omega arith

  -- A loop head, in both cases of its test.
  pub next_batch_cases :
      (P : MainPc → Type 0) (i : ℕ)
      → (i < n → P (launch_left i))
      → (n ≤ i → P waiting)
      → P (next_batch cudf n received_left received_right i)
  next_batch_cases P i more done = elim (Bool-cases (ltb i n)) [
    | inl e ↦ subst P (sym (if_true _ _ e)) (more (ground arith))
    | inr e ↦ subst P (sym (if_false _ _ e)) (done (ground arith))
  ]

  pub next_join_cases :
      (P : JoinPc → Type 0) (i : ℕ)
      → (i < n → P (polling i))
      → (n ≤ i → P finished)
      → P (next_join cudf n received_left received_right i)
  next_join_cases P i more done = elim (Bool-cases (ltb i n)) [
    | inl e ↦ subst P (sym (if_true _ _ e)) (more (ground arith))
    | inr e ↦ subst P (sym (if_false _ _ e)) (done (ground arith))
  ]

  -- An update at the end of a stretch.
  update-below :
      {B : Type 0} (f g : ℕ → B) (i k : ℕ)
      → k < i + 1
      → (k < i → f k ≡ g k)
      → update f i (g i) k ≡ g k
  update-below f g i k h old = elim (Bool-cases (i == k)) [
    | inl e ↦ if_true _ _ e ∙ ap g ((==_iff i k).0 e)
    | inr e ↦ if_false _ _ e ∙ old (ground arith)
  ]

  module _ (m : MainPc) (j : JoinPc) (left : ℕ → List L) (right : ℕ → List R) (flags : ℕ → Bool)
      (results : ℕ → Option (Joined L R)) (i : ℕ) where
    pub left_step :
        Inv (launch_left i) j left right flags results
        → Inv (launch_right i) j (update left i (received_left i)) right flags results
    left_step v = record {
      inside = v.inside;
      ready = IsReady-mono (launch_left i) (launch_right i) j (omega arith) v.ready;
      written_left = λ k h. update-below left received_left i k h (v.written_left k);
      written_right = v.written_right;
      set = v.set;
      not_set = v.not_set;
      results_are = v.results_are;
      ended = tt;
    }

    pub right_step :
        Inv (launch_right i) j left right flags results
        → Inv (set_flag i) j left (update right i (received_right i)) flags results
    right_step v = record {
      inside = v.inside;
      ready = IsReady-mono (launch_right i) (set_flag i) j (omega arith) v.ready;
      written_left = v.written_left;
      written_right = λ k h. update-below right received_right i k h (v.written_right k);
      set = v.set;
      not_set = v.not_set;
      results_are = v.results_are;
      ended = tt;
    }

    flag_set : (k : ℕ) → ((k < i) → flags k ≡ true) → k < i + 1 → update flags i true k ≡ true
    flag_set k old h = update-below flags (λ _. true) i k h old

    flag_not_set : (k : ℕ) → (flags k ≡ true → k < i) → update flags i true k ≡ true → k < i + 1
    flag_not_set k old e = elim (Bool-cases (i == k)) [
      | inl q ↦ omega (arith, (==_iff i k).0 q)
      | inr q ↦ omega (arith, old (sym (if_false _ _ q) ∙ e))
    ]

    pub flag_step :
        Inv (set_flag i) j left right flags results
        → Inv
            (next_batch cudf n received_left received_right (i + 1))
            j
            left
            right
            (update flags i true)
            results
    flag_step v =
        next_batch_cases (λ m. Inv m j left right (update flags i true) results) (i + 1)
          (λ more. record {
            inside = more;
            ready = IsReady-mono (set_flag i) (launch_left (i + 1)) j (omega arith) v.ready;
            written_left = v.written_left;
            written_right = v.written_right;
            set = λ k h. flag_set k (v.set k) h;
            not_set = λ k e. flag_not_set k (v.not_set k) e;
            results_are = v.results_are;
            ended = tt;
          })
          (λ done. record {
            inside = tt;
            ready = IsReady-mono (set_flag i) waiting j (omega (arith, v.inside)) v.ready;
            written_left = λ k h. v.written_left k (omega arith);
            written_right = λ k h. v.written_right k (omega arith);
            set = λ k h. flag_set k (v.set k) (omega arith);
            not_set = λ k e. omega (arith, v.inside, flag_not_set k (v.not_set k) e);
            results_are = v.results_are;
            ended = tt;
          })

    pub see_step :
        flags i ≡ true
        → Inv m (polling i) left right flags results
        → Inv m (joining i) left right flags results
    see_step e v = record {
      inside = v.inside;
      ready = (v.ready, v.not_set i e);
      written_left = v.written_left;
      written_right = v.written_right;
      set = v.set;
      not_set = v.not_set;
      results_are = v.results_are;
      ended = still m v.ended;
    }
      where
        still : (m : MainPc) → HasJoined m (polling i) → HasJoined m (joining i)
        still (launch_left k) h = tt
        still (launch_right k) h = tt
        still (set_flag k) h = tt
        still waiting h = tt
        still returned h = h

    -- What is joined has been written.
    pub joined_batch :
        Inv m (joining i) left right flags results
        → local_join_helper cudf (left i) (right i) ≡ result i
    joined_batch v =
        ap₂ (local_join_helper cudf) (v.written_left i (omega (arith, v.ready.1, flagged-lefts m)))
          (v.written_right i (omega (arith, v.ready.1, flagged-rights m)))

    pub join_step :
        Inv m (joining i) left right flags results
        → Inv m
            (next_join cudf n received_left received_right (i + 1))
            left
            right
            flags
            (update results i (some (local_join_helper cudf (left i) (right i))))
    join_step v =
        next_join_cases
          (λ j.
            Inv m j left right flags
              (update results i (some (local_join_helper cudf (left i) (right i)))))
          (i + 1)
          (λ more. record {
            inside = v.inside;
            ready = more;
            written_left = v.written_left;
            written_right = v.written_right;
            set = v.set;
            not_set = v.not_set;
            results_are = new;
            ended = not_yet m v.ended;
          })
          (λ done. record {
            inside = v.inside;
            ready = tt;
            written_left = v.written_left;
            written_right = v.written_right;
            set = v.set;
            not_set = v.not_set;
            results_are = λ k h. new k (omega arith);
            ended = all_done m;
          })
      where
        new :
            (k : ℕ)
            → k < i + 1
            → update results i (some (local_join_helper cudf (left i) (right i))) k
              ≡ some (result k)
        new k h =
            ap (λ r. update results i (some r) k) (joined_batch v)
            ∙ update-below results (λ k. some (result k)) i k h (v.results_are k)

        not_yet : (m : MainPc) → HasJoined m (joining i) → HasJoined m (polling (i + 1))
        not_yet (launch_left k) h = tt
        not_yet (launch_right k) h = tt
        not_yet (set_flag k) h = tt
        not_yet waiting h = tt
        not_yet returned h = absurd (omega (arith, v.ready.0))

        all_done : (m : MainPc) → HasJoined m finished
        all_done (launch_left k) = tt
        all_done (launch_right k) = tt
        all_done (set_flag k) = tt
        all_done waiting = tt
        all_done returned = refl

  pub return_step :
      (left : ℕ → List L) (right : ℕ → List R) (flags : ℕ → Bool)
      (results : ℕ → Option (Joined L R))
      → Inv waiting finished left right flags results
      → Inv returned finished left right flags results
  return_step left right flags results v = record {
    inside = tt;
    ready = tt;
    written_left = v.written_left;
    written_right = v.written_right;
    set = v.set;
    not_set = v.not_set;
    results_are = v.results_are;
    ended = refl;
  }
