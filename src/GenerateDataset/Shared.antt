-- ===== src/GenerateDataset/Shared.antt =====
-- The threads of init_build_tbl share the slots of the build table, and there are lots for the empty ones.
use native.Mathlib.Nat.{add-mod_right, mod-lt, mod-eq_of_lt, mod-le}
use distributed_join.Prelude.{
  ℕ, ◌+◌, ◌%◌, ◌<◌, ◌≤◌, ◌≡◌, refl, sym, ap, ◌∙◌, true, Option, none, some, map, if◌then◌else◌,
  length, get_or, set, ltb, inl, inr, arith, ℕ_discrete, get_or-set_ne, get_or-set_self, length-set,
  subst, some_inj, Bool-cases, if_true, if_false, ==_iff, dec_lt, length-map, length-replicate,
}
use distributed_join.Prelude.Ranges.{range, length-range, get_or-map-range}
use distributed_join.GenerateDataset.{
  Phase, drawing, reading, swapping, finished, Kernel, next_slot, goto, write_key, read_lot,
  swap_lot, step_from, launched,
}
use distributed_join.Prelude.Updates.{get_or-set_cases, get_or_beyond, get_or-replicate}
use distributed_join.GenerateDataset.Unique.{IsDrawn, none_or_some}
use distributed_join.GenerateDataset.Counts.{
  count_some, count_none, count_some-set, count_none-set, next_with_mod, count_none-replicate,
  count_some-map, ltb_of_lt,
}

-- The slot that a thread works for.
abbrev pub busy_with : Phase → Option ℕ
busy_with (drawing idx) = some idx
busy_with (reading idx lottery_idx) = some idx
busy_with (swapping idx lottery_idx lottery_val) = some idx
busy_with finished = none

module _ (build_tbl_size lots rand_max num_threads : ℕ) (draw : ℕ → ℕ → ℕ)
    (some_threads : 0 < num_threads) where
  abbrev pub busy : Kernel → ℕ → Option ℕ
  busy s t = busy_with (get_or s.threads t finished)

  -- A thread works for slots of its own, from the one that it is at on none is written; the thread of an
  -- empty slot will come to it; and for each key a lot is gone.
  pub record IsShared (s : Kernel) : Type 0 where
    pub slots : length s.build_tbl ≡ build_tbl_size
    pub many : length s.threads ≡ num_threads
    pub places : length s.lottery ≡ lots
    pub balance : count_none s.build_tbl + lots ≡ count_some s.lottery + build_tbl_size
    pub works :
        (t idx : ℕ)
        → busy s t ≡ some idx
        → (idx % num_threads ≡ t)
          × (idx < build_tbl_size)
          × ((j : ℕ) → idx ≤ j → j % num_threads ≡ t → get_or s.build_tbl j none ≡ none)
    pub waits :
        (j : ℕ)
        → j < build_tbl_size
        → get_or s.build_tbl j none ≡ none
        → (idx : ℕ) × (busy s (j % num_threads) ≡ some idx) × (idx ≤ j)

  busy-set :
      (s : Kernel) (thread : ℕ) (p : Phase)
      → busy_with p ≡ busy s thread
      → (t : ℕ) → busy_with (get_or (set s.threads thread p) t finished) ≡ busy s t
  busy-set s thread p same t = elim (get_or-set_cases s.threads thread p t finished _ refl) [
    | inl (here, new) ↦ ap busy_with (sym new) ∙ same ∙ ap (busy s) (sym here)
    | inr old ↦ ap busy_with (sym old)
  ]

  goto-IsShared :
      (s : Kernel) (thread : ℕ) (p : Phase)
      → busy_with p ≡ busy s thread
      → IsShared s
      → IsShared (goto build_tbl_size lots rand_max num_threads true draw thread p s)
  goto-IsShared s thread p same d = record {
    slots = d.slots;
    many = length-set s.threads thread p ∙ d.many;
    places = d.places;
    balance = d.balance;
    works = λ t idx e. d.works t idx (sym (busy-set s thread p same t) ∙ e);
    waits = λ j h e.
        let (idx, b, below) = d.waits j h e in
        (idx, busy-set s thread p same (j % num_threads) ∙ b, below);
  }

  next_slot_busy :
      (idx slot : ℕ)
      → busy_with (next_slot build_tbl_size lots rand_max num_threads true draw idx) ≡ some slot
      → (slot ≡ idx + num_threads) × (slot < build_tbl_size)
  next_slot_busy idx slot e = elim (Bool-cases (ltb (idx + num_threads) build_tbl_size)) [
    | inl more ↦
        let at : some (idx + num_threads) ≡ some slot = ap busy_with (sym (if_true _ _ more)) ∙ e in
        (sym (some_inj _ _ at), ground (arith, some_inj _ _ at))
    | inr last ↦
        let at : none ≡ some slot =
          ap busy_with (sym (if_false (drawing (idx + num_threads)) finished last)) ∙ e in
        absurd (cc at)
  ]

  -- A lot is taken for the slot of a thread.
  pub taken-IsShared :
      (s : Kernel) (thread idx lottery_idx old : ℕ)
      → get_or s.lottery lottery_idx none ≡ some old
      → busy s thread ≡ some idx
      → IsShared s
      → IsShared (
          write_key build_tbl_size lots rand_max num_threads true draw thread idx old
            (record s { lottery = set s.lottery lottery_idx none }))
  taken-IsShared s thread idx lottery_idx old here at d =
      let (own, inside, empty) = d.works thread idx at in
      record {
        slots = length-set s.build_tbl idx (some old) ∙ d.slots;
        many = length-set s.threads thread _ ∙ d.many;
        places = length-set s.lottery lottery_idx none ∙ d.places;
        balance = omega (
          arith,
          d.balance,
          count_some-set s.lottery lottery_idx old here,
          count_none-set s.build_tbl idx old (omega (arith, d.slots)) (empty idx (omega arith) own),
        );
        works = λ t slot e. elim (ℕ_discrete t thread) [
          | yes mine ↦
              let (slot_is, below) =
                next_slot_busy idx slot (sym (ap busy_after mine ∙ own_next) ∙ e) in
              (
                ap (λ v. v % num_threads) slot_is ∙ add-mod_right idx num_threads ∙ own ∙ sym mine,
                below,
                λ j p q.
                    get_or-set_ne s.build_tbl idx j (some old) none (λ f. omega arith)
                    ∙ empty j (omega arith) (q ∙ mine),
              )
          | no other ↦
              let (theirs, below, clear) = d.works t slot (sym (kept t other) ∙ e) in
              (
                theirs,
                below,
                λ j p q.
                    get_or-set_ne s.build_tbl idx j (some old) none
                      (λ f. other (sym q ∙ ap (λ v. v % num_threads) (sym f) ∙ own))
                    ∙ clear j p q,
              )
        ];
        waits = λ j h e. elim (ℕ_discrete j idx) [
          | yes written ↦ none_or_some old (get_or (set s.build_tbl idx (some old)) j none) e (
              ap (λ k. get_or (set s.build_tbl idx (some old)) k none) written
              ∙ get_or-set_self s.build_tbl idx (some old) none (omega (arith, d.slots)))
          | no later ↦
              let (slot, b, below) =
                d.waits j h (
                  sym (get_or-set_ne s.build_tbl idx j (some old) none (λ f. later (sym f))) ∙ e) in
              elim (ℕ_discrete (j % num_threads) thread) [
                | yes mine ↦
                    let same : slot ≡ idx = some_inj slot idx (sym b ∙ ap (busy s) mine ∙ at) in
                    let on : idx + num_threads ≤ j =
                      next_with_mod num_threads idx j some_threads (own ∙ sym mine) (omega arith) in
                    (
                      idx + num_threads,
                      ap busy_after mine
                          ∙ own_next
                          ∙ ap busy_with (
                              if_true _ _
                                (ltb_of_lt (idx + num_threads) build_tbl_size (omega arith))),
                      on,
                    )
                | no other ↦ (slot, kept (j % num_threads) other ∙ b, below)
              ]
        ];
      }
    where
      next : Phase
      next = next_slot build_tbl_size lots rand_max num_threads true draw idx

      busy_after : ℕ → Option ℕ
      busy_after t = busy_with (get_or (set s.threads thread next) t finished)

      thread_in : thread < length s.threads
      thread_in =
          omega
            (arith, d.many, (d.works thread idx at).0, mod-lt idx {m = num_threads} some_threads)

      own_next : busy_after thread ≡ busy_with next
      own_next = ap busy_with (get_or-set_self s.threads thread next finished thread_in)

      kept : (t : ℕ) → (t ≡ thread → ⊥) → busy_after t ≡ busy s t
      kept t other =
          ap busy_with (get_or-set_ne s.threads thread t next finished (λ f. other (sym f)))

  pub step-IsShared :
      (s : Kernel) (thread : ℕ) (p : Phase)
      → get_or s.threads thread finished ≡ p
      → IsDrawn build_tbl_size lots rand_max num_threads draw s
      → IsShared s
      → IsShared (step_from build_tbl_size lots rand_max num_threads true draw p thread s)
  step-IsShared s thread finished e f d = d
  step-IsShared s thread (drawing idx) e f d =
      goto-IsShared s thread (reading idx (draw idx lots)) (sym (ap busy_with e)) d
  step-IsShared s thread (reading idx lottery_idx) e f d =
      by_lot (get_or s.lottery lottery_idx none)
    where
      by_lot :
          (o : Option ℕ)
          → IsShared (
              read_lot build_tbl_size lots rand_max num_threads true draw thread idx lottery_idx o
                s)
      by_lot none = goto-IsShared s thread _ (sym (ap busy_with e)) d
      by_lot (some w) = goto-IsShared s thread _ (sym (ap busy_with e)) d
  step-IsShared s thread (swapping idx lottery_idx v) e f d =
      by_lot (get_or s.lottery lottery_idx none) refl
    where
      by_lot :
          (o : Option ℕ)
          → get_or s.lottery lottery_idx none ≡ o
          → IsShared (
              swap_lot build_tbl_size lots rand_max num_threads true draw thread idx lottery_idx v o
                s)
      by_lot none g = goto-IsShared s thread _ (sym (ap busy_with e)) d
      by_lot (some old) g =
          subst
            (λ s'.
              IsShared
                (write_key build_tbl_size lots rand_max num_threads true draw thread idx old s'))
            (sym (
              if_true _ _ (
                (==_iff old v).1 (
                  omega
                    (arith, (f.numbers lottery_idx old g).0, f.tried thread idx lottery_idx v e)))))
            (taken-IsShared s thread idx lottery_idx old g (ap busy_with e) d)

  -- What both invariants say.
  abbrev pub IsGood : Kernel → Type 0
  IsGood s = IsDrawn build_tbl_size lots rand_max num_threads draw s × IsShared s

  pub launched-IsShared : IsShared (launched build_tbl_size lots rand_max num_threads true draw)
  unfolding launched
  launched-IsShared = record {
    slots = length-replicate build_tbl_size none;
    many = length-map start (range 0 num_threads) ∙ length-range 0 num_threads;
    places = length-map some (range 0 lots) ∙ length-range 0 lots;
    balance = omega (arith, count_none-replicate build_tbl_size, count_some-map lots 0);
    works = λ t idx e. elim (dec_lt t num_threads) [
      | no beyond ↦
          let none_there : get_or (map start (range 0 num_threads)) t finished ≡ finished =
            get_or_beyond (map start (range 0 num_threads)) t finished
              (omega (arith, length-map start (range 0 num_threads), length-range 0 num_threads)) in
          none_or_some idx (busy_with (get_or (map start (range 0 num_threads)) t finished))
            (ap busy_with none_there) e
      | yes inside ↦
          let (slot, below) = started t idx (sym (ap busy_with (started_at t inside)) ∙ e) in
          (
            ap (λ v. v % num_threads) slot ∙ mod-eq_of_lt inside,
            below,
            λ j p q. get_or-replicate build_tbl_size j none,
          )
    ];
    waits = λ j h e. (
      j % num_threads,
      ap busy_with (
          started_at (j % num_threads) (mod-lt j {m = num_threads} some_threads)
          ∙ if_true _ _
              (ltb_of_lt (j % num_threads) build_tbl_size (omega (arith, mod-le j num_threads)))),
      mod-le j num_threads,
    );
  }
    where
      start : ℕ → Phase
      start t = if ltb t build_tbl_size then drawing t else finished

      started_at :
          (t : ℕ) → t < num_threads → get_or (map start (range 0 num_threads)) t finished ≡ start t
      started_at t h =
          get_or-map-range start finished 0 num_threads t h ∙ ap start {x = 0 + t} (omega arith)

      started : (t idx : ℕ) → busy_with (start t) ≡ some idx → (idx ≡ t) × (idx < build_tbl_size)
      started t idx e = elim (Bool-cases (ltb t build_tbl_size)) [
        | inl in_table ↦
            let at : some t ≡ some idx = ap busy_with (sym (if_true _ _ in_table)) ∙ e in
            (sym (some_inj _ _ at), ground (arith, some_inj _ _ at))
        | inr out ↦
            let at : none ≡ some idx = ap busy_with (sym (if_false (drawing t) finished out)) ∙ e in
            absurd (cc at)
      ]
