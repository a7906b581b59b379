-- ===== src/Ucx.antt =====
-- communicator.cpp: `UCXBufferCommunicator`. A message is sent as its number of elements and then in
-- batches that fit a communication buffer; the completion handlers of UCX start batch after batch.
pub mod Batches
pub mod Cache
pub mod Delivered
pub mod Ends
pub mod Placed
pub mod Small
pub mod Transfer
use distributed_join.Prelude.{
  ℕ, zero, suc, ◌+◌, ◌-◌, ◌*◌, ◌/◌, ◌≡◌, Bool, true, false, Option, none, some, List, [], ◌∷◌, ◌++◌,
  map, ltb, ◌==◌, if◌then◌else◌, length, replicate, take, ◌>>=◌,
}
use distributed_join.Prelude.Slices.{slice, write_at}

-- What travels under one tag from one rank to another: a count, or the items of a batch.
pub data Message (A : Type 0) : Type 0 where
  count_message : ℕ → Message A
  batch : List A → Message A

-- The part of `SendInfo` that the handlers read: the user's buffer, `*count`, the element size and
-- the number of the current batch.
pub record SendInfo (A : Type 0) : Type 0 where
  pub send_buffer : List A
  pub count : ℕ
  pub element_size : ℕ
  pub ibatch : ℕ

-- `RecvInfo`: the buffer at `*recv_buffer`, absent where it is null, and the content of the
-- communication buffer.
pub record RecvInfo (A : Type 0) : Type 0 where
  pub recv_buffer : Option (List A)
  pub comm_buffer : List A
  pub count : ℕ
  pub element_size : ℕ
  pub ibatch : ℕ
  pub completed : Bool

abbrev pub at_most : ℕ → ℕ → ℕ
at_most a b = if ltb a b then a else b

-- The first part of `recv_handler`. New memory holds `junk`.
unfoldable pub allocate_receive_buffer : {A : Type 0} → A → RecvInfo A → Option (List A)
allocate_receive_buffer junk info = elim info.recv_buffer [
  | none ↦ if info.count == 0 then none else some (replicate (info.count * info.element_size) junk)
  | some buffer ↦ some buffer
]

module _ {A : Type 0} (comm_buffer_size : ℕ) where
  -- The loop of `send_handler` on fuel: the batches that it sends, and the number of the next batch
  -- where the last send is not complete yet. `sent_at_once` is what `ucp_tag_send_nb` says of each
  -- batch.
  unfoldable pub send_batches :
      ℕ → (ℕ → Bool) → SendInfo A → ℕ → ℕ → Option (List (List A) × Option ℕ)
  send_batches zero sent_at_once info ibatch nelements_remaining = none
  send_batches (suc fuel) sent_at_once info ibatch nelements_remaining =
      let nelements_per_batch = comm_buffer_size / info.element_size in
      let nelements_current_batch = at_most nelements_remaining nelements_per_batch in
      let nelements_sent = ibatch * nelements_per_batch in
      let items =
        slice info.send_buffer (nelements_sent * info.element_size)
          (nelements_current_batch * info.element_size) in
      let rest =
        send_batches fuel sent_at_once info (ibatch + 1)
          (nelements_remaining - nelements_current_batch) in
      if nelements_remaining == 0
      then some ([], none)
      else if sent_at_once ibatch
      then (rest >>= λ r. some (items ∷ r.0, r.1))
      else some (items ∷ [], some (ibatch + 1))

  -- `send_handler`: `none` in place of the next batch's number means that the handle of the user is
  -- marked completed.
  unfoldable pub send_handler : ℕ → (ℕ → Bool) → SendInfo A → Option (List (List A) × Option ℕ)
  send_handler fuel sent_at_once info =
      let nelements_per_batch = comm_buffer_size / info.element_size in
      send_batches fuel sent_at_once info info.ibatch
        (info.count - nelements_per_batch * info.ibatch)

  -- The number of elements of the batch before `ibatch`.
  abbrev pub batch_elements : RecvInfo A → ℕ
  batch_elements info =
      let nelements_per_batch = comm_buffer_size / info.element_size in
      at_most (info.count - nelements_per_batch * (info.ibatch - 1)) nelements_per_batch

  unfoldable pub copy_batch : RecvInfo A → List A → List A
  copy_batch info buffer =
      let nelements_per_batch = comm_buffer_size / info.element_size in
      let nelement_copied = nelements_per_batch * (info.ibatch - 1) in
      if info.ibatch == 0
      then buffer
      else write_at buffer (nelement_copied * info.element_size)
          (take (batch_elements info * info.element_size) info.comm_buffer)

  unfoldable pub recv_handler : A → RecvInfo A → RecvInfo A
  unfolding allocate_receive_buffer copy_batch
  recv_handler junk info =
      let nelements_per_batch = comm_buffer_size / info.element_size in
      let buffer : Option (List A) =
        (allocate_receive_buffer junk info >>= λ b. some (copy_batch info b)) in
      let nelements_remaining = info.count - nelements_per_batch * info.ibatch in
      if at_most nelements_remaining nelements_per_batch == 0
      then record info { recv_buffer = buffer; completed = true }
      else record info { recv_buffer = buffer; ibatch = info.ibatch + 1 }

  -- A message fills the receive that is posted, of the count or of a batch, and its handler runs.
  -- `none` where it is not the message that the receive is for.
  unfoldable pub arrive : A → Message A → RecvInfo A → Option (RecvInfo A)
  unfolding recv_handler
  arrive junk (count_message count) info =
      if info.ibatch == 0 then some (recv_handler junk (record info { count = count })) else none
  arrive junk (batch items) info =
      if info.ibatch == 0
      then none
      else if length items == batch_elements info * info.element_size
      then some (recv_handler junk (record info { comm_buffer = items }))
      else none
