-- ===== src/GenerateDataset/Unique.antt =====
-- The keys of the build table that the threads of init_build_tbl draw from the lottery.
use distributed_join.Prelude.{
  ℕ, ◌+◌, ◌<◌, dec_lt, length-map, ◌≡◌, refl, sym, ap, ◌∙◌, Bool, true, false, Option, none, some,
  List, [], ◌∷◌, map, if◌then◌else◌, get_or, set, ltb, replicate, inl, inr, arith, subst, some_inj,
  if_true, ==_iff,
}
use distributed_join.Prelude.Ranges.{range, length-range, get_or-map-range}
use distributed_join.Prelude.Updates.{
  get_or-set_cases, get_or-set_default, get_or-set_cleared, get_or_beyond, get_or-replicate,
}
use distributed_join.GenerateDataset.{
  Phase, drawing, reading, swapping, finished, Kernel, next_slot, goto, write_key, read_lot,
  swap_lot, step_from, init_build_tbl, interleaved, launched,
}

pub none_or_some : {B : Type 0} (v : ℕ) (o : Option ℕ) → o ≡ none → o ≡ some v → B
none_or_some v o e f = absurd (cc (e, f))

module _ (build_tbl_size lots rand_max num_threads : ℕ) (draw : ℕ → ℕ → ℕ) where
  -- The lots are their own numbers, a key has been taken out of the lottery, once, and a thread tries
  -- to swap the lot that it has read.
  pub record IsDrawn (s : Kernel) : Type 0 where
    pub numbers : (i v : ℕ) → get_or s.lottery i none ≡ some v → (v ≡ i) × (i < lots)
    pub taken :
        (k v : ℕ)
        → get_or s.build_tbl k none ≡ some v
        → (v < lots) × (get_or s.lottery v none ≡ none)
    pub apart :
        (j k v : ℕ)
        → get_or s.build_tbl j none ≡ some v
        → get_or s.build_tbl k none ≡ some v
        → j ≡ k
    pub tried :
        (t idx lottery_idx v : ℕ)
        → get_or s.threads t finished ≡ swapping idx lottery_idx v
        → v ≡ lottery_idx

  -- A thread goes on, but not to a swap of another lot than it has read.
  goto-IsDrawn :
      (s : Kernel) (thread : ℕ) (p : Phase)
      → ((idx lottery_idx v : ℕ) → p ≡ swapping idx lottery_idx v → v ≡ lottery_idx)
      → IsDrawn s
      → IsDrawn (goto build_tbl_size lots rand_max num_threads true draw thread p s)
  goto-IsDrawn s thread p fits d = record {
    numbers = d.numbers;
    taken = d.taken;
    apart = d.apart;
    tried = λ t idx lottery_idx v e. elim (get_or-set_cases s.threads thread p t finished _ e) [
      | inl (same, new) ↦ fits idx lottery_idx v new
      | inr old ↦ d.tried t idx lottery_idx v old
    ];
  }

  next_slot_draws :
      (idx slot lottery_idx v : ℕ)
      → next_slot build_tbl_size lots rand_max num_threads true draw idx
        ≡ swapping slot lottery_idx v
      → v ≡ lottery_idx
  next_slot_draws idx slot lottery_idx v e = by_test (ltb (idx + num_threads) build_tbl_size) e
    where
      by_test :
          (b : Bool)
          → (if b then drawing (idx + num_threads) else finished) ≡ swapping slot lottery_idx v
          → v ≡ lottery_idx
      by_test true f = absurd (cc f)
      by_test false f = absurd (cc f)

  -- The swap succeeds: the lot that is taken out is the key.
  taken-IsDrawn :
      (s : Kernel) (thread idx lottery_idx old : ℕ)
      → get_or s.lottery lottery_idx none ≡ some old
      → IsDrawn s
      → IsDrawn (
          write_key build_tbl_size lots rand_max num_threads true draw thread idx old
            (record s { lottery = set s.lottery lottery_idx none }))
  taken-IsDrawn s thread idx lottery_idx old here d =
      let (own, inside) = d.numbers lottery_idx old here in
      record {
        numbers = λ i v e. elim (get_or-set_cases s.lottery lottery_idx none i none _ e) [
          | inl (same, new) ↦ absurd (cc new)
          | inr before ↦ d.numbers i v before
        ];
        taken = λ k v e. elim (get_or-set_cases s.build_tbl idx (some old) k none _ e) [
          | inl (same, new) ↦
              let key : old ≡ v = some_inj old v new in
              (
                omega arith,
                ap (λ i. get_or (set s.lottery lottery_idx none) i none) {x = v} {y = lottery_idx}
                      (omega arith)
                    ∙ get_or-set_cleared s.lottery lottery_idx none,
              )
          | inr before ↦ (
            (d.taken k v before).0,
            get_or-set_default s.lottery lottery_idx v none (d.taken k v before).1,
          )
        ];
        apart = λ j k v e f. elim (get_or-set_cases s.build_tbl idx (some old) j none _ e) [
          | inl (j_new, v_new) ↦ elim (get_or-set_cases s.build_tbl idx (some old) k none _ f) [
            | inl (k_new, _) ↦ j_new ∙ sym k_new
            | inr k_old ↦ again v (some_inj old v v_new) (d.taken k v k_old).1
          ]
          | inr j_old ↦ elim (get_or-set_cases s.build_tbl idx (some old) k none _ f) [
            | inl (k_new, v_new) ↦ again v (some_inj old v v_new) (d.taken j v j_old).1
            | inr k_old ↦ d.apart j k v j_old k_old
          ]
        ];
        tried = λ t slot i v e. elim (get_or-set_cases s.threads thread _ t finished _ e) [
          | inl (same, new) ↦ next_slot_draws idx slot i v new
          | inr before ↦ d.tried t slot i v before
        ];
      }
    where
      again : {B : Type 0} (v : ℕ) → old ≡ v → get_or s.lottery v none ≡ none → B
      again v key gone =
          none_or_some old (get_or s.lottery lottery_idx none)
            (ap (λ i. get_or s.lottery i none) {x = lottery_idx} {y = v}
                (omega (arith, (d.numbers lottery_idx old here).0))
              ∙ gone)
            here

  pub step-IsDrawn :
      (draws : (idx : ℕ) → draw idx lots < lots)
      → (s : Kernel) (thread : ℕ) (p : Phase) → get_or s.threads thread finished ≡ p
      → IsDrawn s
      → IsDrawn (step_from build_tbl_size lots rand_max num_threads true draw p thread s)
  step-IsDrawn draws s thread finished e d = d
  step-IsDrawn draws s thread (drawing idx) e d =
      goto-IsDrawn s thread (reading idx (draw idx lots)) (λ i l v f. absurd (cc f)) d
  step-IsDrawn draws s thread (reading idx lottery_idx) e d =
      by_lot (get_or s.lottery lottery_idx none) refl
    where
      by_lot :
          (o : Option ℕ)
          → get_or s.lottery lottery_idx none ≡ o
          → IsDrawn (
              read_lot build_tbl_size lots rand_max num_threads true draw thread idx lottery_idx o
                s)
      by_lot none f = goto-IsDrawn s thread _ (λ i l v g. absurd (cc g)) d
      by_lot (some w) f =
          goto-IsDrawn s thread (swapping idx lottery_idx w)
            (λ i l v g. cc (g, (d.numbers lottery_idx w f).0)) d
  step-IsDrawn draws s thread (swapping idx lottery_idx v) e d =
      by_lot (get_or s.lottery lottery_idx none) refl
    where
      by_lot :
          (o : Option ℕ)
          → get_or s.lottery lottery_idx none ≡ o
          → IsDrawn (
              swap_lot build_tbl_size lots rand_max num_threads true draw thread idx lottery_idx v o
                s)
      by_lot none f = goto-IsDrawn s thread _ (λ i l v g. absurd (cc g)) d
      by_lot (some old) f =
          subst
            (λ s'.
              IsDrawn
                (write_key build_tbl_size lots rand_max num_threads true draw thread idx old s'))
            (sym (
              if_true _ _ (
                (==_iff old v).1 (
                  omega
                    (arith, (d.numbers lottery_idx old f).0, d.tried thread idx lottery_idx v e)))))
            (taken-IsDrawn s thread idx lottery_idx old f d)

  pub launched-IsDrawn : IsDrawn (launched build_tbl_size lots rand_max num_threads true draw)
  unfolding launched
  launched-IsDrawn = record {
    numbers = λ i v e. elim (dec_lt i lots) [
      | yes inside ↦ (
        sym (
            some_inj i v (
              sym (ap some {x = 0 + i} (omega arith))
              ∙ sym (get_or-map-range some none 0 lots i inside)
              ∙ e)),
        inside,
      )
      | no beyond ↦
          none_or_some v (get_or (map some (range 0 lots)) i none)
            (get_or_beyond (map some (range 0 lots)) i none
              (omega (arith, length-map some (range 0 lots), length-range 0 lots)))
            e
    ];
    taken = λ k v e.
        none_or_some v (get_or (replicate build_tbl_size none) k none)
          (get_or-replicate build_tbl_size k none) e;
    apart = λ j k v e f.
        none_or_some v (get_or (replicate build_tbl_size none) k none)
          (get_or-replicate build_tbl_size k none) f;
    tried = λ t idx lottery_idx v e. elim (dec_lt t num_threads) [
      | yes inside ↦
          start_draws t idx lottery_idx v (ltb (0 + t) build_tbl_size)
            (sym (get_or-map-range start finished 0 num_threads t inside) ∙ e)
      | no beyond ↦ absurd (
          cc (
            e,
            get_or_beyond (map start (range 0 num_threads)) t finished
                (omega (arith, length-map start (range 0 num_threads), length-range 0 num_threads)),
          ))
    ];
  }
    where
      start : ℕ → Phase
      start t = if ltb t build_tbl_size then drawing t else finished

      start_draws :
          (t idx lottery_idx v : ℕ) (b : Bool)
          → (if b then drawing (0 + t) else finished) ≡ swapping idx lottery_idx v
          → v ≡ lottery_idx
      start_draws t idx lottery_idx v true f = absurd (cc f)
      start_draws t idx lottery_idx v false f = absurd (cc f)

  pub interleaved-IsDrawn :
      (draws : (idx : ℕ) → draw idx lots < lots) (schedule : List ℕ) (s : Kernel)
      → IsDrawn s
      → IsDrawn (interleaved build_tbl_size lots rand_max num_threads true draw schedule s)
  unfolding interleaved init_build_tbl
  interleaved-IsDrawn draws [] s d = d
  interleaved-IsDrawn draws (thread ∷ schedule) s d =
      interleaved-IsDrawn draws schedule _ (step-IsDrawn draws s thread _ refl d)

  -- The memory after some steps of the threads.
  abbrev pub after : List ℕ → Kernel
  after schedule =
      interleaved build_tbl_size lots rand_max num_threads true draw schedule
        (launched build_tbl_size lots rand_max num_threads true draw)

  -- If no draw is past the end of the lottery, then in any interleaving of the threads two slots of the
  -- build table never hold the same key, and each key is a number of the lottery that is no longer
  -- there.
  pub unique_keys :
      (draws : (idx : ℕ) → draw idx lots < lots) (schedule : List ℕ) (j k v : ℕ)
      → get_or (after schedule).build_tbl j none ≡ some v
      → get_or (after schedule).build_tbl k none ≡ some v
      → (j ≡ k) × (v < lots) × (get_or (after schedule).lottery v none ≡ none)
  unique_keys draws schedule j k v e f =
      let d = interleaved-IsDrawn draws schedule _ launched-IsDrawn in
      (d.apart j k v e f, (d.taken j v e).0, (d.taken j v e).1)
