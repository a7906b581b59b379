-- ===== src/Ucx/Batches.antt =====
-- The batches of a message, whichever of their sends complete at once.
use native.Mathlib.Nat.{mul_comm}
use distributed_join.Prelude.{
  ℕ, zero, suc, ◌+◌, ◌-◌, ◌*◌, ◌/◌, ◌≤◌, ◌<◌, ◌≡◌, refl, sym, ap, ◌∙◌, subst, arith, Bool, true,
  false, Option, none, some, List, [], ◌∷◌, ◌++◌, ◌==◌, if◌then◌else◌, length, if_true, if_false,
  Bool-cases, inl, inr, ==_iff, ◌>>=◌,
}
use distributed_join.Prelude.Slices.{slice}
use distributed_join.Ucx.{SendInfo, at_most, send_batches, send_handler}

module _ {A : Type 0} (comm_buffer_size : ℕ) (info : SendInfo A) where
  abbrev pub per_batch : ℕ
  per_batch = comm_buffer_size / info.element_size

  -- The batches from number `i` on, of `rem` elements together, on fuel.
  abbrev pub batches_on : ℕ → ℕ → ℕ → List (List A)
  batches_on zero i rem = []
  batches_on (suc fuel) i rem =
      let rest = batches_on fuel (i + 1) (rem - at_most rem per_batch) in
      if rem == 0
      then []
      else slice info.send_buffer (i * per_batch * info.element_size)
          (at_most rem per_batch * info.element_size)
        ∷ rest

  abbrev pub batches_from : ℕ → List (List A)
  batches_from i = batches_on (info.count - i * per_batch) i (info.count - i * per_batch)

  module _ (some_elements : 0 < per_batch) where
    pub batches_on-enough :
        (f g i rem : ℕ) → rem ≤ f → rem ≤ g → batches_on f i rem ≡ batches_on g i rem
    batches_on-enough zero zero i rem h k = refl
    batches_on-enough zero (suc g) i rem h k = ground arith
    batches_on-enough (suc f) zero i rem h k = ground arith
    batches_on-enough (suc f) (suc g) i rem h k =
        ground (arith, batches_on-enough f g (i + 1) (rem - at_most rem per_batch))

    abbrev pub piece : ℕ → List A
    piece i =
        slice info.send_buffer (i * per_batch * info.element_size)
          (at_most (info.count - i * per_batch) per_batch * info.element_size)

    pub remaining-suc :
        (i : ℕ)
        → info.count - i * per_batch - at_most (info.count - i * per_batch) per_batch
          ≡ info.count - (i + 1) * per_batch
    remaining-suc i = grind arith

    pub batches_from-cons :
        (i : ℕ) → 0 < info.count - i * per_batch → batches_from i ≡ piece i ∷ batches_from (i + 1)
    batches_from-cons i h =
        ap (λ k. batches_on k i (info.count - i * per_batch))
          {y = suc (info.count - i * per_batch - 1)} (omega arith)
        ∙ if_false _ _ (not_zero _ h)
        ∙ ap (◌∷◌ (piece i)) (
            ap (batches_on (info.count - i * per_batch - 1) (i + 1)) (remaining-suc i)
            ∙ batches_on-enough (info.count - i * per_batch - 1) (info.count - (i + 1) * per_batch)
                (i + 1) (info.count - (i + 1) * per_batch) (omega (arith, remaining-suc i, smaller))
                (omega arith))
      where
        not_zero : (n : ℕ) → 0 < n → (n == 0) ≡ false
        not_zero n h = ground arith

        smaller : 0 < at_most (info.count - i * per_batch) per_batch
        smaller = ground arith

    pub batches_from-nil : (i : ℕ) → info.count - i * per_batch ≡ 0 → batches_from i ≡ []
    batches_from-nil i h = ap (λ k. batches_on k i k) h

    -- What is still to be sent when the send before batch `j` is in progress, or none is.
    abbrev pub later : Option ℕ → List (List A)
    later none = []
    later (some j) = batches_from j

    abbrev pub in_progress : Option ℕ → ℕ
    in_progress none = 0
    in_progress (some j) = 1

    abbrev made : ℕ → ℕ → List (List A) → Option ℕ → Option (List (List A) × Option ℕ)
    made i rem sent next = some (
      slice info.send_buffer (i * per_batch * info.element_size)
            (at_most rem per_batch * info.element_size)
          ∷ sent,
      next,
    )

    abbrev after_piece :
        ℕ → ℕ → Option (List (List A) × Option ℕ) → Option (List (List A) × Option ℕ)
    after_piece i rem rest = rest >>= λ r. made i rem r.0 r.1

    shrinks :
        (rem fuel : ℕ) → (rem == 0) ≡ false → rem < suc fuel → rem - at_most rem per_batch < fuel
    shrinks rem fuel more h = ground arith

    none_left :
        (i rem : ℕ)
        → rem ≡ info.count - i * per_batch
        → (rem == 0) ≡ true
        → info.count - i * per_batch ≡ 0
    none_left i rem e h = sym e ∙ (==_iff rem 0).0 h

    some_left :
        (i rem : ℕ)
        → rem ≡ info.count - i * per_batch
        → (rem == 0) ≡ false
        → 0 < info.count - i * per_batch
    some_left i rem e h = ground arith

    -- The loop ends within its fuel; what it sends and what is left make up the batches, and it
    -- sends a batch where it does not end the message.
    pub record Sends (i : ℕ) (result : Option (List (List A) × Option ℕ)) : Type 0 where
      pub sent : List (List A)
      pub next : Option ℕ
      pub returns : result ≡ some (sent, next)
      pub all_batches : sent ++ later next ≡ batches_from i
      pub moves : in_progress next ≤ length sent

    pub send_batches-Sends :
        (j fuel : ℕ) (sent_at_once : ℕ → Bool) (i rem : ℕ)
        → rem ≡ info.count - i * per_batch
        → rem < fuel
        → Sends i
            (send_batches comm_buffer_size fuel sent_at_once (record info { ibatch = j }) i rem)
    unfolding send_batches
    send_batches-Sends j zero sent_at_once i rem e h = absurd (omega arith)
    send_batches-Sends j (suc fuel) sent_at_once i rem e h = elim (Bool-cases (rem == 0)) [
      | inl done ↦ record {
        sent = [];
        next = none;
        returns = if_true _ _ done;
        all_batches = sym (batches_from-nil i (none_left i rem e done));
        moves = omega arith;
      }
      | inr more ↦ elim (Bool-cases (sent_at_once i)) [
        | inl at_once ↦
            let ih : Sends (i + 1) (
                send_batches comm_buffer_size fuel sent_at_once (record info { ibatch = j }) (i + 1)
                  (rem - at_most rem per_batch)) =
              send_batches-Sends j fuel sent_at_once (i + 1) (rem - at_most rem per_batch)
                (ap (λ k. k - at_most k per_batch) e ∙ remaining-suc i) (shrinks rem fuel more h) in
            record {
              sent = piece i ∷ ih.sent;
              next = ih.next;
              returns =
                  if_false _ _ more
                  ∙ if_true _ _ at_once
                  ∙ ap (after_piece i rem) ih.returns
                  ∙ ap (λ k. made i k ih.sent ih.next) e;
              all_batches =
                  ap (◌∷◌ (piece i)) ih.all_batches
                  ∙ sym (batches_from-cons i (some_left i rem e more));
              moves = omega (arith, ih.moves);
            }
        | inr waits ↦ record {
          sent = piece i ∷ [];
          next = some (i + 1);
          returns = if_false _ _ more ∙ if_false _ _ waits ∙ ap (λ k. made i k [] (some (i + 1))) e;
          all_batches = sym (batches_from-cons i (some_left i rem e more));
          moves = omega arith;
        }
      ]
    ]

    pub send_handler-Sends :
        (sent_at_once : ℕ → Bool) (i : ℕ)
        → Sends i (
            send_handler comm_buffer_size
              (info.count + 1)
              sent_at_once
              (record info { ibatch = i }))
    unfolding send_handler
    send_handler-Sends sent_at_once i =
        subst
          (λ rem. Sends i (
            send_batches comm_buffer_size (info.count + 1) sent_at_once (record info { ibatch = i })
              i rem))
          (ap (λ k. info.count - k) (mul_comm i per_batch))
          (send_batches-Sends i (info.count + 1) sent_at_once i (info.count - i * per_batch) refl
            (omega arith))
