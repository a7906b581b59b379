-- ===== src/Ucx/Small.antt =====
-- Communication buffers that do not hold an element.
use distributed_join.Prelude.{
  ℕ, zero, suc, ◌+◌, ◌-◌, ◌*◌, ◌/◌, ◌<◌, ◌≡◌, refl, ap, ◌∙◌, arith, true, false, Option, none, some,
  List, [], ◌∷◌, ◌++◌, take, drop, take-append-drop, Bool-cases, inl, inr, ◌==◌, if_true, if_false,
  ◌>>=◌,
}
use distributed_join.Prelude.Slices.{slice, write_at}
use distributed_join.Ucx.{
  SendInfo, RecvInfo, at_most, send_batches, send_handler, recv_handler, allocate_receive_buffer,
  copy_batch, batch_elements,
}

nothing_written : {A : Type 0} (buffer : List A) (off : ℕ) → write_at buffer off [] ≡ buffer
unfolding write_at
nothing_written buffer off =
    ap (λ k. take off buffer ++ drop k buffer) {x = off + 0} {y = off} (omega arith)
    ∙ take-append-drop off buffer

module _ {A : Type 0} (comm_buffer_size : ℕ) (info : SendInfo A)
    (small : comm_buffer_size < info.element_size) where
  no_elements : comm_buffer_size / info.element_size ≡ 0
  no_elements = grind arith

  none_sent : (rem : ℕ) → rem - at_most rem (comm_buffer_size / info.element_size) ≡ rem
  none_sent rem = ap (λ k. rem - at_most rem k) no_elements ∙ ground arith

  loops :
      (fuel i rem : ℕ) → 0 < rem → send_batches comm_buffer_size fuel (λ _. true) info i rem ≡ none
  unfolding send_batches
  loops zero i rem h = refl
  loops (suc fuel) i rem h =
      if_false _ _ (not_zero rem h)
      ∙ ap (λ o. o >>= first)
          (ap (send_batches comm_buffer_size fuel (λ _. true) info (i + 1)) (none_sent rem)
            ∙ loops fuel (i + 1) rem h)
    where
      not_zero : (n : ℕ) → 0 < n → (n == 0) ≡ false
      not_zero n h = ground arith

      first : List (List A) × Option ℕ → Option (List (List A) × Option ℕ)
      first r = some (
        slice info.send_buffer (i * (comm_buffer_size / info.element_size) * info.element_size)
              (at_most rem (comm_buffer_size / info.element_size) * info.element_size)
            ∷ r.0,
        r.1,
      )

  -- If a communication buffer is smaller than an element, the loop of `send_handler` does not end on
  -- any fuel while its sends complete at once and elements remain, and `recv_handler` marks the
  -- receive completed and copies no element: the buffer stays as it was, or as it is allocated.
  pub small_buffer :
      (fuel : ℕ) (junk : A) (r : RecvInfo A)
      → 0 < info.count - comm_buffer_size / info.element_size * info.ibatch
      → r.element_size ≡ info.element_size
      → (send_handler comm_buffer_size fuel (λ _. true) info ≡ none)
        × ((recv_handler comm_buffer_size junk r).completed ≡ true)
        × ((recv_handler comm_buffer_size junk r).recv_buffer ≡ allocate_receive_buffer junk r)
  unfolding send_handler recv_handler copy_batch
  small_buffer fuel junk r h e = (
    loops fuel info.ibatch (info.count - comm_buffer_size / info.element_size * info.ibatch) h,
    ap (λ (r : RecvInfo A). r.completed) (if_true _ _ nothing),
    ap (λ (r : RecvInfo A). r.recv_buffer) (if_true _ _ nothing)
        ∙ not_copied (allocate_receive_buffer junk r),
  )
    where
      no_batch : comm_buffer_size / r.element_size ≡ 0
      no_batch = ap (λ k. comm_buffer_size / k) e ∙ no_elements

      nothing :
          (at_most
              (r.count - comm_buffer_size / r.element_size * r.ibatch)
              (comm_buffer_size / r.element_size)
            == 0)
          ≡ true
      nothing = ap (λ k. at_most (r.count - k * r.ibatch) k == 0) no_batch ∙ ground arith

      batch_empty :
          (items : List A) → take (batch_elements comm_buffer_size r * r.element_size) items ≡ []
      batch_empty items =
          ap (λ k. take (at_most (r.count - k * (r.ibatch - 1)) k * r.element_size) items) no_batch
          ∙ ap (λ k. take (k * r.element_size) items) {x = at_most (r.count - 0 * (r.ibatch - 1)) 0}
              {y = 0} (ground arith)
          ∙ ap (λ k. take k items) {x = 0 * r.element_size} {y = 0} (omega arith)

      copy_nothing : (buffer : List A) → copy_batch comm_buffer_size r buffer ≡ buffer
      copy_nothing buffer = elim (Bool-cases (r.ibatch == 0)) [
        | inl first ↦ if_true _ _ first
        | inr later ↦
            if_false _ _ later
            ∙ ap
                (write_at buffer
                  (comm_buffer_size / r.element_size * (r.ibatch - 1) * r.element_size))
                (batch_empty r.comm_buffer)
            ∙ nothing_written buffer
                (comm_buffer_size / r.element_size * (r.ibatch - 1) * r.element_size)
      ]

      not_copied : (o : Option (List A)) → (o >>= λ b. some (copy_batch comm_buffer_size r b)) ≡ o
      not_copied none = refl
      not_copied (some b) = ap some (copy_nothing b)
