-- ===== src/Communicator/Delivery.antt =====
-- What a loop of sends leaves in the channels, and what a loop of receives writes.
use distributed_join.Prelude.{
  ℕ, zero, suc, ◌+◌, ◌*◌, ◌≤◌, ◌<◌, ◌≡◌, ◌≢◌, refl, sym, ap, ap₂, ◌∙◌, Bool, false, some, List, [],
  ◌∷◌, ◌++◌, arith, ◌==◌, if◌then◌else◌, length, set, get_or, append_assoc, append-nil, set_self,
  set-set, get_or-set_self, length-set, length-append, Bool-cases, if_true, if_false, ==_iff, inl,
  inr, ℕ_discrete, Option-cases,
}
use distributed_join.Prelude.Ranges.{range, flat_map}
use distributed_join.Communicator.{
  Call, start, stop, send, recv, sent_to, Memory, Inbox, complete, call, ◌>>=◌, pop, tail, receive,
}
use distributed_join.Prelude.Slices.{write_at, write_at-middle}

module _ {A : Type 0} where
  pub sent_to-append :
      (d : ℕ) (xs ys : List (Call A)) → sent_to d (xs ++ ys) ≡ sent_to d xs ++ sent_to d ys
  sent_to-append d [] ys = refl
  sent_to-append d (start ∷ xs) ys = sent_to-append d xs ys
  sent_to-append d (stop ∷ xs) ys = sent_to-append d xs ys
  sent_to-append d (send p c w e ∷ xs) ys = ground (arith, sent_to-append d xs ys)
  sent_to-append d (recv b o c w s ∷ xs) ys = sent_to-append d xs ys

  pub complete-append :
      (xs ys : List (Call A)) (m : Memory A)
      → complete (xs ++ ys) m ≡ (complete xs m >>= complete ys)
  unfolding complete
  complete-append [] ys m = refl
  complete-append (x ∷ xs) ys m = elim (Option-cases (call x m)) [
    | inl e ↦ rw (e, ◌>>=◌)
    | inr (m', e) ↦ rw (e, ◌>>=◌) (complete-append xs ys m')
  ]

module _ {A : Type 0} (post : ℕ → List (Call A)) where
  -- Rounds that only send leave the memory alone.
  pub complete_idle :
      (m : Memory A) (ks : List ℕ)
      → ((j : ℕ) → complete (post j) m ≡ some m)
      → complete (flat_map post ks) m ≡ some m
  unfolding complete
  complete_idle m [] h = refl
  complete_idle m (k ∷ ks) h =
      complete-append (post k) (flat_map post ks) m
      ∙ ap (λ o. o >>= complete (flat_map post ks)) (h k)
      ∙ complete_idle m ks h

  -- Rounds that send nothing to `d`.
  pub sent_to_none :
      (d i n : ℕ)
      → ((j : ℕ) → i ≤ j → j < i + n → sent_to d (post j) ≡ [])
      → sent_to d (flat_map post (range i n)) ≡ []
  sent_to_none d i zero h = refl
  sent_to_none d i (suc n) h =
      sent_to-append d (post i) (flat_map post (range (suc i) n))
      ∙ ap₂ ◌++◌ (h i (omega arith) (omega arith))
          (sent_to_none d (suc i) n λ j p q. h j (omega arith) (omega arith))

  -- Only round `k` sends to `d`.
  pub sent_to_only :
      (d k i n : ℕ)
      → i ≤ k
      → k < i + n
      → ((j : ℕ) → j ≢ k → sent_to d (post j) ≡ [])
      → sent_to d (flat_map post (range i n)) ≡ sent_to d (post k)
  sent_to_only d k i zero p q h = absurd (omega arith)
  sent_to_only d k i (suc n) p q h =
      sent_to-append d (post i) (flat_map post (range (suc i) n)) ∙ elim (ℕ_discrete i k) [
        | yes e ↦
            ap₂ ◌++◌ (ap (λ j. sent_to d (post j)) e)
              (sent_to_none d (suc i) n λ j a b. h j λ f. omega arith)
            ∙ append-nil _
        | no ne ↦ ap₂ ◌++◌ (h i ne) (sent_to_only d k (suc i) n (omega arith) (omega arith) h)
      ]

module _ {A : Type 0} where
  pop_self : (inbox : Inbox A) (s : ℕ) → pop inbox s s ≡ tail (inbox s)
  pop_self inbox s = ground arith

-- The sends of one loop: round `k` sends `payload k` to `dest k`, unless it is skipped.
module _ {A : Type 0} (w : ℕ) (skip : ℕ → Bool) (payload : ℕ → List A) (cnt dest : ℕ → ℕ) where
  abbrev pub send_round : ℕ → List (Call A)
  send_round k = if skip k then [] else send (payload k) (cnt k) w (dest k) ∷ []

  sent_to_other : (d j : ℕ) → dest j ≢ d → sent_to d (send_round j) ≡ []
  sent_to_other d j ne = elim (Bool-cases (skip j)) [
    | inl e ↦ ap (sent_to d) (if_true _ _ e)
    | inr e ↦
        ap (sent_to d) (if_false _ _ e)
        ∙ if_false {b = dest j == d} (payload j ∷ []) [] (ground arith)
  ]

  pub sent_by_rounds :
      (d k i n : ℕ)
      → i ≤ k
      → k < i + n
      → ((j j' : ℕ) → dest j ≡ dest j' → j ≡ j')
      → dest k ≡ d
      → skip k ≡ false
      → sent_to d (flat_map send_round (range i n)) ≡ payload k ∷ []
  sent_by_rounds d k i n p q distinct at takes =
      sent_to_only send_round d k i n p q
        (λ j ne. sent_to_other d j (λ e. ne (distinct j k (e ∙ sym at))))
      ∙ ap (sent_to d) (if_false _ _ takes)
      ∙ if_true _ _ ((==_iff _ _).1 at)

  pub complete_sends : (m : Memory A) (ks : List ℕ) → complete (flat_map send_round ks) m ≡ some m
  unfolding complete
  complete_sends m ks = complete_idle send_round m ks λ j. elim (Bool-cases (skip j)) [
    | inl e ↦ ap (λ cs. complete cs m) (if_true _ _ e)
    | inr e ↦ ap (λ cs. complete cs m) (if_false _ _ e)
  ]

module _ {A : Type 0} where
  pub receive_ok :
      (b o c w s : ℕ) (inbox : Inbox A) (buffers : List (List A)) (m : List A) (ms : List (List A))
      → inbox s ≡ m ∷ ms
      → length m ≡ c * w
      → receive b o c w s (inbox, buffers)
        ≡ some (pop inbox s, set buffers b (write_at (get_or buffers b []) o m))
  unfolding receive
  receive_ok b o c w s inbox buffers m ms e l = rw (e, receive) (rw ((==_iff _ _).1 l))

  pop_other : (inbox : Inbox A) (s t : ℕ) → s ≢ t → pop inbox s t ≡ inbox t
  pop_other inbox s t ne = ground arith

-- The receives of one loop: round `k` receives `cnt k` elements of width `w` from `src k` into the
-- buffer `b` at `off k`, unless it is skipped.
module _ {A : Type 0} (b w : ℕ) (skip : ℕ → Bool) (src off cnt : ℕ → ℕ) where
  abbrev pub receive_round : ℕ → List (Call A)
  receive_round k = if skip k then [] else recv b (off k) (cnt k) w (src k) ∷ []

  abbrev pub filled : (ℕ → List A) → (ℕ → List A) → ℕ → List A
  filled old new k = if skip k then old k else new k

  abbrev pub popped : List ℕ → Inbox A → Inbox A
  popped [] f = f
  popped (k ∷ ks) f = popped ks (if skip k then f else pop f (src k))

  module _ (N : ℕ) (old new : ℕ → List A) (rest : ℕ → List (List A))
      (next : (k : ℕ) → k < N → off (suc k) ≡ off k + length (old k))
      (size : (k : ℕ) → k < N → length (old k) ≡ cnt k * w)
      (same : (k : ℕ) → k < N → length (new k) ≡ cnt k * w)
      (distinct : (j k : ℕ) → src j ≡ src k → j ≡ k) where
    pub receive_loop :
        (n i : ℕ) (done : List A) (inbox : Inbox A) (buffers : List (List A))
        → i + n ≡ N
        → b < length buffers
        → get_or buffers b [] ≡ done ++ flat_map old (range i n)
        → off i ≡ length done
        → ((k : ℕ) → i ≤ k → k < N → skip k ≡ false → inbox (src k) ≡ new k ∷ rest k)
        → complete (flat_map receive_round (range i n)) (inbox, buffers)
          ≡ some (
            popped (range i n) inbox,
            set buffers b (done ++ flat_map (filled old new) (range i n)),
          )
    unfolding complete
    receive_loop zero i done inbox buffers e hb held at arrived =
        ap (λ u. some (inbox, u)) (sym (set_self buffers b []) ∙ ap (set buffers b) held)
    receive_loop (suc n) i done inbox buffers e hb held at arrived = elim (Bool-cases (skip i)) [
      | inl skips ↦
          ap (λ cs. complete (cs ++ rounds) (inbox, buffers)) (if_true _ _ skips)
          ∙ receive_loop n (suc i) (done ++ old i) inbox buffers (omega arith) hb
              (held ∙ sym (append_assoc done (old i) _))
              (next i (omega arith) ∙ omega (arith, at, length-append done (old i)))
              (λ k p q f. arrived k (omega arith) q f)
          ∙ ap₂ (λ u v. some (popped (range (suc i) n) u, set buffers b v))
              (sym (if_true _ _ skips))
              (append_assoc done (old i) _
                ∙ ap (λ v. done ++ (v ++ filled_rest)) (sym (if_true _ _ skips)))
      | inr takes ↦
          ap (λ cs. complete (cs ++ rounds) (inbox, buffers)) (if_false _ _ takes)
          ∙ ap (λ m. m >>= complete rounds)
              (receive_ok b (off i) (cnt i) w (src i) inbox buffers (new i) (rest i)
                (arrived i (omega arith) (omega arith) takes) (same i (omega arith)))
          ∙ receive_loop n (suc i) (done ++ new i) (pop inbox (src i)) (set buffers b written)
              (omega arith) (rw (length-set buffers b) hb)
              (get_or-set_self buffers b written [] hb
                ∙ ap (λ v. write_at v (off i) (new i)) held
                ∙ write_at-middle done (old i) (new i) _ (off i) at
                    (same i (omega arith) ∙ sym (size i (omega arith)))
                ∙ sym (append_assoc done (new i) _))
              (next i (omega arith)
                ∙ omega (
                  arith,
                  at,
                  length-append done (new i),
                  size i (omega arith),
                  same i (omega arith),
                ))
              (λ k p q f.
                pop_other inbox (src i) (src k) (λ f. omega (arith, distinct i k f))
                ∙ arrived k (omega arith) q f)
          ∙ ap₂ (λ u v. some (popped (range (suc i) n) u, v)) (sym (if_false _ _ takes))
              (set-set buffers b written _
                ∙ ap (set buffers b) (
                    append_assoc done (new i) _
                    ∙ ap (λ v. done ++ (v ++ filled_rest)) (sym (if_false _ _ takes))))
    ]
      where
        rounds : List (Call A)
        rounds = flat_map receive_round (range (suc i) n)

        filled_rest : List A
        filled_rest = flat_map (filled old new) (range (suc i) n)

        written : List A
        written = write_at (get_or buffers b []) (off i) (new i)

  pub sent_by_receives : (d : ℕ) (ks : List ℕ) → sent_to d (flat_map receive_round ks) ≡ []
  sent_by_receives d [] = refl
  sent_by_receives d (k ∷ ks) =
      sent_to-append d (receive_round k) (flat_map receive_round ks)
      ∙ ap₂ ◌++◌ none_sent (sent_by_receives d ks)
    where
      none_sent : sent_to d (receive_round k) ≡ []
      none_sent = elim (Bool-cases (skip k)) [
        | inl e ↦ ap (sent_to d) (if_true _ _ e)
        | inr e ↦ ap (sent_to d) (if_false _ _ e)
      ]

  -- What the loop leaves in the channels.
  module _ (distinct : (j k : ℕ) → src j ≡ src k → j ≡ k) where
    round_other :
        (k i : ℕ) (f : Inbox A) → i ≢ k → (if skip i then f else pop f (src i)) (src k) ≡ f (src k)
    round_other k i f ne = elim (Bool-cases (skip i)) [
      | inl e ↦ ap (λ (u : Inbox A). u (src k)) (if_true f (pop f (src i)) e)
      | inr e ↦
          ap (λ (u : Inbox A). u (src k)) (if_false f (pop f (src i)) e)
          ∙ pop_other f (src i) (src k) (λ g. ne (distinct i k g))
    ]

    popped_past : (k i n : ℕ) (f : Inbox A) → k < i → popped (range i n) f (src k) ≡ f (src k)
    popped_past k i zero f h = refl
    popped_past k i (suc n) f h =
        popped_past k (suc i) n (if skip i then f else pop f (src i)) (omega arith)
        ∙ round_other k i f (λ e. omega arith)

    pub popped_at :
        (k i n : ℕ) (f : Inbox A)
        → i ≤ k
        → k < i + n
        → skip k ≡ false
        → popped (range i n) f (src k) ≡ tail (f (src k))
    popped_at k i zero f p q takes = absurd (omega arith)
    popped_at k i (suc n) f p q takes = elim (ℕ_discrete i k) [
      | yes e ↦
          popped_past k (suc i) n (if skip i then f else pop f (src i)) (omega arith)
          ∙ ap (λ j. (if skip j then f else pop f (src j)) (src k)) e
          ∙ ap (λ (u : Inbox A). u (src k)) (if_false f (pop f (src k)) takes)
          ∙ pop_self f (src k)
      | no ne ↦
          popped_at k (suc i) n (if skip i then f else pop f (src i)) (omega arith) (omega arith)
            takes
          ∙ ap tail (round_other k i f ne)
    ]
