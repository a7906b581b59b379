-- ===== src/Ucx/Delivered.antt =====
-- A transfer through `UCXBufferCommunicator` brings the receiver the items of the sender, and ends,
-- in whichever order its sends complete and its messages arrive.
use mathlib.Core.Option.{some-injective}
use distributed_join.Prelude.{
  ℕ, ◌+◌, ◌*◌, ◌≤◌, ◌<◌, ◌≡◌, refl, sym, ap, ap₂, ◌∙◌, subst, Bool, true, false, Option, some, List,
  [], ◌∷◌, ◌++◌, map, length, append_assoc, map-append,
}
use distributed_join.Ucx.{Message, count_message, batch, SendInfo, RecvInfo, arrive}
use distributed_join.Ucx.Batches.{
  per_batch, piece, batches_from, batches_from-cons, later, send_handler-Sends,
}
use distributed_join.Ucx.Placed.{
  buffer_before, buffer_after, At, waiting, reading, finished, count_arrives, batch_arrives,
}
use distributed_join.Ucx.Transfer.{
  Transfer, Step, send_completes, message_arrives, Reach, here, further, posted,
}

cons_parts : {B : Type 0} (x y : B) (xs ys : List B) → (x ∷ xs) ≡ (y ∷ ys) → (x ≡ y) × (xs ≡ ys)
cons_parts x y xs ys e = (cc, cc)

module _ {A : Type 0} (comm_buffer_size : ℕ) (info : SendInfo A) (junk : A)
    (provided : Option (List A)) (some_elements : 0 < per_batch comm_buffer_size info)
    (sends : info.count * info.element_size ≤ length info.send_buffer)
    (receives : info.count * info.element_size
      ≤ length (buffer_before junk provided (info.count * info.element_size))) where
  abbrev pub left : Transfer A → List (Message A)
  left s = s.wire ++ map batch (later comm_buffer_size info some_elements s.sending)

  abbrev pub Stands : RecvInfo A → List (Message A) → Type 0
  Stands = At comm_buffer_size info junk provided

  abbrev pub Inv : Transfer A → Type 0
  Inv s = Stands s.receiving (left s)

  -- What a send leaves of the messages on the wire and to come.
  after_send :
      (s : Transfer A) (i : ℕ) (sent : List (List A)) (next : Option ℕ)
      → s.sending ≡ some i
      → sent ++ later comm_buffer_size info some_elements next
        ≡ batches_from comm_buffer_size info i
      → left (record s { sending = next; wire = s.wire ++ map batch sent }) ≡ left s
  after_send s i sent next e all =
      append_assoc s.wire (map batch sent)
        (map batch (later comm_buffer_size info some_elements next))
      ∙ ap (◌++◌ s.wire) (
          sym (map-append batch sent (later comm_buffer_size info some_elements next))
          ∙ ap (map batch) (all ∙ ap (later comm_buffer_size info some_elements) (sym e)))

  -- The next message is the one that the posted receive is for.
  pub expected :
      (r : RecvInfo A) (m : Message A) (rest : List (Message A))
      → Stands r (m ∷ rest)
      → (r' : RecvInfo A) × (arrive comm_buffer_size junk m r ≡ some r') × Stands r' rest
  expected r m rest (waiting unset comm_buffer at e) =
      let (r', arrives, stands) =
        count_arrives comm_buffer_size info junk provided some_elements sends receives unset
          comm_buffer in
      let (same, others) = cons_parts m (count_message info.count) rest _ e in
      (
        r',
        ap₂ (arrive comm_buffer_size junk) same at ∙ arrives,
        subst (Stands r') (sym others) stands,
      )
  expected r m rest (reading i comm_buffer more at e) =
      let (r', arrives, stands) =
        batch_arrives comm_buffer_size info junk provided some_elements sends receives i comm_buffer
          more in
      let (same, others) =
        cons_parts m (batch (piece comm_buffer_size info some_elements i)) rest
          (map batch (batches_from comm_buffer_size info (i + 1)))
          (e ∙ ap (map batch) (batches_from-cons comm_buffer_size info some_elements i more)) in
      (
        r',
        ap₂ (arrive comm_buffer_size junk) same at ∙ arrives,
        subst (Stands r') (sym others) stands,
      )
  expected r m rest (finished i comm_buffer at e) = cc

  Step-Inv : {s t : Transfer A} → Step comm_buffer_size info junk s t → Inv s → Inv t
  Step-Inv {s} {t} (send_completes sent_at_once i sent next e returns to) inv =
      let s' = send_handler-Sends comm_buffer_size info some_elements sent_at_once i in
      let same : ◌≡◌ {A = List (List A) × Option ℕ} (s'.sent, s'.next) (sent, next) =
        some-injective _ _ (sym s'.returns ∙ returns) in
      subst Inv (sym to) (
        subst (Stands s.receiving)
          (sym (
            after_send s i sent next e (
              subst
                (λ (p : List (List A) × Option ℕ).
                  p.0 ++ later comm_buffer_size info some_elements p.1
                  ≡ batches_from comm_buffer_size info i)
                same s'.all_batches)))
          inv)
  Step-Inv {s} {t} (message_arrives m rest r waits on_wire arrives to) inv =
      let (r', arrives', stands) =
        expected s.receiving m
          (rest ++ map batch (later comm_buffer_size info some_elements s.sending))
          (subst
            (λ w.
              Stands s.receiving
                (w ++ map batch (later comm_buffer_size info some_elements s.sending)))
            on_wire inv) in
      subst Inv (sym to) (
        subst
          (λ r. Stands r (rest ++ map batch (later comm_buffer_size info some_elements s.sending)))
          (some-injective r' r (sym arrives' ∙ arrives)) stands)

  pub Reach-Inv :
      (unset : ℕ) {t : Transfer A}
      → Reach comm_buffer_size info junk (posted comm_buffer_size info junk provided unset) t
      → Inv t
  Reach-Inv unset here = waiting unset [] refl refl
  Reach-Inv unset (further r st) = Step-Inv st (Reach-Inv unset r)

  -- What the receiver's buffer holds in the end: the items of the sender over what was there before,
  -- and nothing new where no element is sent.
  abbrev pub delivered_buffer : Option (List A)
  delivered_buffer = buffer_after comm_buffer_size info junk provided info.count

  -- In a transfer through communication buffers that hold an element, with a full buffer to send from
  -- and room to receive into, a receive handle that is marked completed has all items in its buffer, and
  -- no message of the transfer is left.
  pub completed_buffer :
      (unset : ℕ) {t : Transfer A}
      → Reach comm_buffer_size info junk (posted comm_buffer_size info junk provided unset) t
      → t.receiving.completed ≡ true
      → (t.receiving.recv_buffer ≡ delivered_buffer) × (t.wire ≡ [])
  completed_buffer unset {t} r done = elim (Reach-Inv unset r) [
    | waiting u cb at e ↦ absurd_by (ap (λ (r : RecvInfo A). r.completed) (sym at) ∙ done)
    | reading i cb more at e ↦ absurd_by (ap (λ (r : RecvInfo A). r.completed) (sym at) ∙ done)
    | finished i cb at e ↦ (ap (λ (r : RecvInfo A). r.recv_buffer) at, first_nil t.wire _ e)
  ]
    where
      absurd_by : {B : Type 0} → ◌≡◌ {A = Bool} false true → B
      absurd_by e = cc

      first_nil : (xs ys : List (Message A)) → (xs ++ ys) ≡ [] → xs ≡ []
      first_nil [] ys e = refl
      first_nil (x ∷ xs) ys e = cc
