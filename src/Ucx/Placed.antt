-- ===== src/Ucx/Placed.antt =====
-- Where a batch lands in the buffer of the receiver, and what the receiver's handler makes of it.
use native.Mathlib.Nat.{mul_comm, add-mul}
use distributed_join.Prelude.{
  ℕ, ◌+◌, ◌-◌, ◌*◌, ◌≤◌, ◌<◌, ◌≡◌, refl, sym, ap, ap₂, ◌∙◌, arith, Bool, true, false, Option, none,
  some, List, [], ◌∷◌, ◌++◌, map, ◌==◌, if◌then◌else◌, length, if_true, if_false, Bool-cases, inl,
  inr, ==_iff, ◌>>=◌, take, drop, replicate, length-take, take-length-append, drop-length-append,
  take_all, drop-drop, append_assoc,
}
use distributed_join.Prelude.Slices.{slice, mul_mono, write_at, length-slice, take-add}
use distributed_join.Ucx.{
  Message, count_message, batch, SendInfo, RecvInfo, at_most, allocate_receive_buffer, copy_batch,
  recv_handler, arrive,
}
use distributed_join.Ucx.Batches.{per_batch, piece, batches_from, batches_from-nil}

module _ {A : Type 0} where
  -- The first `x` items from one buffer, the others from another.
  abbrev pub mixed : List A → List A → ℕ → List A
  mixed sent old x = take x sent ++ drop x old

  -- A write behind what has arrived.
  pub write_at-mixed :
      (sent old : List A) (x y : ℕ)
      → x + y ≤ length sent
      → x + y ≤ length old
      → write_at (mixed sent old x) x (slice sent x y) ≡ mixed sent old (x + y)
  unfolding write_at
  write_at-mixed sent old x y h k =
      ap₂ (λ (u v : List A). u ++ (slice sent x y ++ v))
        (take-length-append x (take x sent) (drop x old) first)
        (ap (λ z. drop (x + z) (mixed sent old x)) (length-slice sent x y h)
          ∙ sym (drop-drop y x (mixed sent old x))
          ∙ ap (drop y) (drop-length-append x (take x sent) (drop x old) first)
          ∙ drop-drop y x old)
      ∙ sym (append_assoc (take x sent) (slice sent x y) (drop (x + y) old))
      ∙ ap (λ v. v ++ drop (x + y) old) (sym (take-add x y sent))
    where
      first : length (take x sent) ≡ x
      first = omega (arith, length-take x sent)

-- The receiver's buffer before anything has arrived: the one that is given, or a new one.
abbrev pub buffer_before : {A : Type 0} → A → Option (List A) → ℕ → List A
buffer_before junk none items = replicate items junk
buffer_before junk (some b) items = b

module _ {A : Type 0} (comm_buffer_size : ℕ) (info : SendInfo A) (junk : A)
    (provided : Option (List A)) where
  abbrev pub old_buffer : List A
  old_buffer = buffer_before junk provided (info.count * info.element_size)

  abbrev pub buffer_after : ℕ → Option (List A)
  buffer_after elements =
      if info.count == 0
      then provided
      else some (mixed info.send_buffer old_buffer (elements * info.element_size))

  abbrev pub handle : Option (List A) → List A → ℕ → ℕ → Bool → RecvInfo A
  handle buffer comm_buffer count ibatch completed = record {
    recv_buffer = buffer;
    comm_buffer = comm_buffer;
    count = count;
    element_size = info.element_size;
    ibatch = ibatch;
    completed = completed;
  }

  -- Where the receiver stands, given the messages that it still has to receive.
  pub data At (r : RecvInfo A) (left : List (Message A)) : Type 0 where
    waiting :
        (unset : ℕ) (comm_buffer : List A)
        → r ≡ handle provided comm_buffer unset 0 false
        → left ≡ count_message info.count ∷ map batch (batches_from comm_buffer_size info 0)
        → At r left
    reading :
        (i : ℕ) (comm_buffer : List A)
        → 0 < info.count - i * per_batch comm_buffer_size info
        → r
          ≡ handle
              (buffer_after (i * per_batch comm_buffer_size info))
              comm_buffer
              info.count
              (i + 1)
              false
        → left ≡ map batch (batches_from comm_buffer_size info i)
        → At r left
    finished :
        (i : ℕ) (comm_buffer : List A)
        → r ≡ handle (buffer_after info.count) comm_buffer info.count i true
        → left ≡ []
        → At r left

  module _ (some_elements : 0 < per_batch comm_buffer_size info)
      (sends : info.count * info.element_size ≤ length info.send_buffer)
      (receives : info.count * info.element_size ≤ length old_buffer) where
    abbrev per : ℕ
    per = per_batch comm_buffer_size info

    abbrev done : ℕ → ℕ
    done i = at_most info.count (i * per)

    not_first : (i : ℕ) → (i + 1 == 0) ≡ false
    not_first i = ground arith

    -- The end of the handler: it posts the receive of batch `i`, or marks the handle completed.
    handled :
        (i : ℕ) (buffer : Option (List A)) (comm_buffer : List A)
        → buffer ≡ buffer_after (done i)
        → At
            (if at_most (info.count - per * i) per == 0
              then handle buffer comm_buffer info.count i true
              else handle buffer comm_buffer info.count (i + 1) false)
            (map batch (batches_from comm_buffer_size info i))
    handled i buffer comm_buffer e = elim (Bool-cases (at_most (info.count - per * i) per == 0)) [
      | inl nothing ↦
          let all_done : done i ≡ info.count = all_done_when i nothing in
          finished i comm_buffer
            (if_true _ _ nothing
              ∙ ap (λ b. handle b comm_buffer info.count i true) (e ∙ ap buffer_after all_done))
            (ap (map batch)
              (batches_from-nil comm_buffer_size info some_elements i (none_left i nothing)))
      | inr more ↦
          let so_far : done i ≡ i * per = done_so_far i more in
          reading i comm_buffer (some_left i more)
            (if_false _ _ more
              ∙ ap (λ b. handle b comm_buffer info.count (i + 1) false)
                  (e ∙ ap buffer_after so_far))
            refl
    ]
      where
        none_left :
            (i : ℕ) → (at_most (info.count - per * i) per == 0) ≡ true → info.count - i * per ≡ 0
        none_left i h = ground (arith, mul_comm per i)

        some_left :
            (i : ℕ) → (at_most (info.count - per * i) per == 0) ≡ false → 0 < info.count - i * per
        some_left i h = ground (arith, mul_comm per i)

        all_done_when :
            (i : ℕ) → (at_most (info.count - per * i) per == 0) ≡ true → done i ≡ info.count
        all_done_when i h = ground (arith, none_left i h)

        done_so_far : (i : ℕ) → (at_most (info.count - per * i) per == 0) ≡ false → done i ≡ i * per
        done_so_far i h = ground (arith, some_left i h)

    -- The first run of the handler allocates a buffer where there is none.
    allocated :
        (p : Option (List A)) (comm_buffer : List A) (count x : ℕ)
        → x ≡ 0
        → (allocate_receive_buffer junk (handle p comm_buffer count 0 false) >>= λ b. some b) ≡ (
            if count == 0
            then p
            else some (mixed info.send_buffer (buffer_before junk p (count * info.element_size)) x))
    unfolding allocate_receive_buffer
    allocated none comm_buffer count x e =
        let old : List A = replicate (count * info.element_size) junk in
        elim (Bool-cases (count == 0)) [
          | inl empty ↦ ap (λ o. o >>= λ b. some b) (if_true _ _ empty) ∙ sym (if_true _ _ empty)
          | inr some_rows ↦
              ap (λ o. o >>= λ b. some b) (if_false _ _ some_rows)
              ∙ ap (λ k. some (mixed info.send_buffer old k)) (sym e)
              ∙ sym (if_false _ _ some_rows)
        ]
    allocated (some b) comm_buffer count x e = elim (Bool-cases (count == 0)) [
      | inl empty ↦ sym (if_true _ _ empty)
      | inr some_rows ↦
          ap (λ k. some (mixed info.send_buffer b k)) (sym e) ∙ sym (if_false _ _ some_rows)
    ]

    pub count_arrives :
        (unset : ℕ) (comm_buffer : List A)
        → (r : RecvInfo A) × (arrive comm_buffer_size junk
              (count_message info.count)
              (handle provided comm_buffer unset 0 false)
            ≡ some r)
          × At r (map batch (batches_from comm_buffer_size info 0))
    unfolding arrive recv_handler copy_batch
    count_arrives unset comm_buffer = (
      _,
      refl,
      handled 0
          (allocate_receive_buffer junk (handle provided comm_buffer info.count 0 false) >>= λ b.
            some b)
          comm_buffer
          (allocated provided comm_buffer info.count (done 0 * info.element_size)
            (ap (λ k. k * info.element_size) none_done ∙ omega arith)),
    )
      where
        none_done : done 0 ≡ 0
        none_done = ground arith

    -- The elements before batch `i` and those of the batch are those before the next one.
    so_far :
        (i : ℕ)
        → 0 < info.count - i * per
        → i * per * info.element_size + at_most (info.count - i * per) per * info.element_size
          ≡ done (i + 1) * info.element_size
    so_far i h =
        sym (add-mul (i * per) (at_most (info.count - i * per) per) info.element_size)
        ∙ ap (λ k. k * info.element_size) elements
      where
        elements : i * per + at_most (info.count - i * per) per ≡ done (i + 1)
        elements = grind arith

    within :
        (i len : ℕ) → info.count * info.element_size ≤ len → done (i + 1) * info.element_size ≤ len
    within i len h = omega (arith, mul_mono (done (i + 1)) info.count info.element_size at_most_all)
      where
        at_most_all : done (i + 1) ≤ info.count
        at_most_all = ground arith

    length-piece :
        (i : ℕ)
        → 0 < info.count - i * per
        → length (piece comm_buffer_size info some_elements i)
          ≡ at_most (info.count - i * per) per * info.element_size
    length-piece i h =
        length-slice info.send_buffer _ _
          (omega (arith, so_far i h, within i (length info.send_buffer) sends))

    back : (i : ℕ) → per * (i + 1 - 1) ≡ i * per
    back i = ap (λ k. per * k) {x = i + 1 - 1} {y = i} (omega arith) ∙ mul_comm per i

    -- What is copied out of the communication buffer goes behind what has arrived.
    copied :
        (i : ℕ)
        → 0 < info.count - i * per
        → copy_batch comm_buffer_size
            (handle
              (buffer_after (i * per))
              (piece comm_buffer_size info some_elements i)
              info.count
              (i + 1)
              false)
            (mixed info.send_buffer old_buffer (i * per * info.element_size))
          ≡ mixed info.send_buffer old_buffer (done (i + 1) * info.element_size)
    unfolding copy_batch
    copied i h =
        if_false _ _ (not_first i)
        ∙ ap₂ (write_at (mixed info.send_buffer old_buffer (i * per * info.element_size)))
            (ap (λ k. k * info.element_size) (back i))
            (ap
                (λ k.
                  take (at_most (info.count - k) per * info.element_size)
                    (piece comm_buffer_size info some_elements i))
                (back i)
              ∙ take_all _ (piece comm_buffer_size info some_elements i)
                  (omega (arith, length-piece i h)))
        ∙ write_at-mixed info.send_buffer old_buffer _ _
            (omega (arith, so_far i h, within i (length info.send_buffer) sends))
            (omega (arith, so_far i h, within i (length old_buffer) receives))
        ∙ ap (mixed info.send_buffer old_buffer) (so_far i h)

    pub batch_arrives :
        (i : ℕ) (comm_buffer : List A)
        → 0 < info.count - i * per
        → (r : RecvInfo A) × (arrive comm_buffer_size junk
              (batch (piece comm_buffer_size info some_elements i))
              (handle (buffer_after (i * per)) comm_buffer info.count (i + 1) false)
            ≡ some r)
          × At r (map batch (batches_from comm_buffer_size info (i + 1)))
    unfolding arrive recv_handler allocate_receive_buffer
    batch_arrives i comm_buffer h = (
      _,
      if_false _ _ (not_first i) ∙ if_true _ _ ((==_iff _ _).1 (length-piece i h ∙ posted)),
      handled (i + 1) (filled (buffer_after (i * per))) received
          (ap filled here ∙ ap some (copied i h) ∙ sym (if_false _ _ (not_empty i h))),
    )
      where
        received : List A
        received = piece comm_buffer_size info some_elements i

        filled : Option (List A) → Option (List A)
        filled o =
            allocate_receive_buffer junk (handle o received info.count (i + 1) false) >>= λ b.
            some (
              copy_batch comm_buffer_size
                (handle (buffer_after (i * per)) received info.count (i + 1) false) b)

        not_empty : (i : ℕ) → 0 < info.count - i * per → (info.count == 0) ≡ false
        not_empty i h = ground arith

        here :
            buffer_after (i * per)
            ≡ some (mixed info.send_buffer old_buffer (i * per * info.element_size))
        here = if_false _ _ (not_empty i h)

        posted :
            at_most (info.count - i * per) per * info.element_size
            ≡ at_most (info.count - per * (i + 1 - 1)) per * info.element_size
        posted = ap (λ k. at_most (info.count - k) per * info.element_size) (sym (back i))
