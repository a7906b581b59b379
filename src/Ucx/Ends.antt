-- ===== src/Ucx/Ends.antt =====
-- A transfer through `UCXBufferCommunicator` does not get stuck, and has finitely many steps.
use mathlib.Core.Option.{some-injective}
use distributed_join.Prelude.{
  ℕ, zero, suc, ◌+◌, ◌*◌, ◌-◌, ◌≤◌, ◌<◌, ◌≡◌, refl, sym, ap, ◌∙◌, subst, arith, true, false, Option,
  none, some, List, [], ◌∷◌, ◌++◌, map, length, ◌⊎◌, inl, inr, length-append, length-map,
  append-nil,
}
use distributed_join.Ucx.{Message, batch, SendInfo, RecvInfo}
use distributed_join.Ucx.Batches.{
  per_batch, batches_from, batches_from-cons, later, in_progress, send_handler-Sends,
}
use distributed_join.Ucx.Placed.{buffer_before, At, waiting, reading, finished}
use distributed_join.Ucx.Transfer.{
  Transfer, Step, send_completes, message_arrives, Reach, here, further, posted,
}
use distributed_join.Ucx.Delivered.{Inv, expected, Reach-Inv, delivered_buffer, completed_buffer}

module _ {A : Type 0} (comm_buffer_size : ℕ) (info : SendInfo A) (junk : A)
    (provided : Option (List A)) (some_elements : 0 < per_batch comm_buffer_size info)
    (sends : info.count * info.element_size ≤ length info.send_buffer)
    (receives : info.count * info.element_size
      ≤ length (buffer_before junk provided (info.count * info.element_size)))
    (unset : ℕ) where
  abbrev Reached : Transfer A → Type 0
  Reached = Reach comm_buffer_size info junk (posted comm_buffer_size info junk provided unset)

  -- Both handles are marked completed, so both waits return.
  abbrev pub IsEnded : Transfer A → Type 0
  IsEnded t = (t.sending ≡ none) × (t.receiving.completed ≡ true)

  -- The steps that are left, at most.
  abbrev pub remaining : Transfer A → ℕ
  remaining t =
      length t.wire
      + 2 * length (later comm_buffer_size info some_elements t.sending)
      + in_progress comm_buffer_size info some_elements t.sending

  -- In a transfer through communication buffers that hold an element, with a full buffer to send from
  -- and room to receive into, each step lowers the number of steps that can be left.
  pub Step-remaining :
      {t u : Transfer A} → Step comm_buffer_size info junk t u → remaining u < remaining t
  Step-remaining {t} (send_completes sent_at_once i sent next e returns to) =
      let s' = send_handler-Sends comm_buffer_size info some_elements sent_at_once i in
      let same : ◌≡◌ {A = List (List A) × Option ℕ} (s'.sent, s'.next) (sent, next) =
        some-injective _ _ (sym s'.returns ∙ returns) in
      let all : length sent + length (later comm_buffer_size info some_elements next)
          ≡ length (batches_from comm_buffer_size info i) =
        sym (length-append sent (later comm_buffer_size info some_elements next))
        ∙ ap length (
            subst
              (λ (p : List (List A) × Option ℕ).
                p.0 ++ later comm_buffer_size info some_elements p.1
                ≡ batches_from comm_buffer_size info i)
              same s'.all_batches) in
      let moves : in_progress comm_buffer_size info some_elements next ≤ length sent =
        subst
          (λ (p : List (List A) × Option ℕ).
            in_progress comm_buffer_size info some_elements p.1 ≤ length p.0)
          same s'.moves in
      let before : remaining t
          ≡ length t.wire + 2 * length (batches_from comm_buffer_size info i) + 1 =
        ap
          (λ o.
            length t.wire
            + 2 * length (later comm_buffer_size info some_elements o)
            + in_progress comm_buffer_size info some_elements o)
          e in
      subst (λ u. remaining u < remaining t) (sym to)
        (omega
          (arith, all, moves, before, length-append t.wire (map batch sent), length-map batch sent))
  Step-remaining {t} (message_arrives m rest r waits on_wire arrives to) =
      subst (λ u. remaining u < remaining t) (sym to) (omega (arith, ap length on_wire))

  -- A transfer that has not ended has a step.
  pub next_step :
      {t : Transfer A}
      → Reached t
      → IsEnded t ⊎ ((u : Transfer A) × Step comm_buffer_size info junk t u)
  next_step {t} r = by_sending t.sending refl
    where
      inv : Inv comm_buffer_size info junk provided some_elements sends receives t
      inv = Reach-Inv comm_buffer_size info junk provided some_elements sends receives unset r

      -- Nothing is to be sent, so what the receiver waits for is on the wire.
      on_wire : t.sending ≡ none → At comm_buffer_size info junk provided t.receiving t.wire
      on_wire e =
          subst (At comm_buffer_size info junk provided t.receiving)
            (ap (λ o. t.wire ++ map batch (later comm_buffer_size info some_elements o)) e
              ∙ append-nil t.wire)
            inv

      arrives_next :
          (w : List (Message A))
          → t.wire ≡ w
          → t.receiving.completed ≡ false
          → At comm_buffer_size info junk provided t.receiving w
          → ¬ (w ≡ [])
          → (u : Transfer A) × Step comm_buffer_size info junk t u
      arrives_next [] e waits at some_left = absurd (some_left refl)
      arrives_next (m ∷ rest) e waits at some_left =
          let (r', arrives, stands) =
            expected comm_buffer_size info junk provided some_elements sends receives t.receiving m
              rest at in
          (_, message_arrives m rest r' waits e arrives refl)

      by_sending :
          (o : Option ℕ)
          → t.sending ≡ o
          → IsEnded t ⊎ ((u : Transfer A) × Step comm_buffer_size info junk t u)
      by_sending (some i) e =
          let s' = send_handler-Sends comm_buffer_size info some_elements (λ _. true) i in
          inr (_, send_completes (λ _. true) i s'.sent s'.next e s'.returns refl)
      by_sending none e = elim (on_wire e) [
        | waiting u cb at l ↦ inr (
            arrives_next t.wire refl (ap (λ (r : RecvInfo A). r.completed) at) (on_wire e)
              (λ q. cc))
        | reading i cb more at l ↦ inr (
            arrives_next t.wire refl (ap (λ (r : RecvInfo A). r.completed) at) (on_wire e)
              (λ q. some_batch i more (sym l ∙ q)))
        | finished i cb at l ↦ inl (e, ap (λ (r : RecvInfo A). r.completed) at)
      ]
        where
          some_batch :
              (i : ℕ)
              → 0 < info.count - i * per_batch comm_buffer_size info
              → ¬ (map batch (batches_from comm_buffer_size info i) ≡ [])
          some_batch i more q = cc (
              sym (ap (map batch) (batches_from-cons comm_buffer_size info some_elements i more))
              ∙ q)

  prepend :
      {t u v : Transfer A}
      → Step comm_buffer_size info junk t u
      → Reach comm_buffer_size info junk u v
      → Reach comm_buffer_size info junk t v
  prepend st here = further here st
  prepend st (further r st') = further (prepend st r) st'

  ends_within :
      (k : ℕ) (t : Transfer A)
      → remaining t < k
      → Reached t
      → (u : Transfer A) × Reach comm_buffer_size info junk t u × Reached u × IsEnded u
  ends_within zero t h r = absurd (omega arith)
  ends_within (suc k) t h r = elim (next_step r) [
    | inl ended ↦ (t, here, r, ended)
    | inr (u, st) ↦
        let (v, onward, reached, ended) =
          ends_within k u (omega (arith, Step-remaining st)) (further r st) in
        (v, prepend st onward, reached, ended)
  ]

  -- In a transfer through communication buffers that hold an element, with a full buffer to send from
  -- and room to receive into, the steps lead on from any state to one in which both handles are
  -- marked completed, and the receiver's buffer holds the items.
  pub transfer_ends :
      (t : Transfer A)
      → Reached t
      → (u : Transfer A) × Reach comm_buffer_size info junk t u
        × IsEnded u
        × (u.receiving.recv_buffer
            ≡ delivered_buffer comm_buffer_size info junk provided some_elements sends receives)
  transfer_ends t r =
      let (u, onward, reached, ended) = ends_within (suc (remaining t)) t (omega arith) r in
      (
        u,
        onward,
        ended,
        (completed_buffer comm_buffer_size info junk provided some_elements sends receives unset
            reached ended.1).0,
      )
