-- ===== src/Ucx/Transfer.antt =====
-- One message on its way from `UCXBufferCommunicator::send` on one rank to `recv` on another, as
-- UCX completes the sends and delivers what arrives in any interleaving.
use distributed_join.Prelude.{ℕ, ◌+◌, ◌≡◌, Bool, false, Option, some, List, [], ◌∷◌, ◌++◌, map}
use distributed_join.Ucx.{Message, count_message, batch, SendInfo, RecvInfo, send_handler, arrive}

-- The send in progress, by the number of the batch after it, the messages that have not been
-- received, and the receiver's handle.
pub record Transfer (A : Type 0) : Type 0 where
  pub sending : Option ℕ
  pub wire : List (Message A)
  pub receiving : RecvInfo A

module _ {A : Type 0} (comm_buffer_size : ℕ) (info : SendInfo A) (junk : A) where
  -- UCX completes a send, and the handler runs; or it gives the receiver the next message, and the
  -- receiver's handler runs.
  pub data Step (s t : Transfer A) : Type 0 where
    send_completes :
        (sent_at_once : ℕ → Bool) (i : ℕ) (sent : List (List A)) (next : Option ℕ)
        → s.sending ≡ some i
        → send_handler comm_buffer_size (info.count + 1) sent_at_once (record info { ibatch = i })
          ≡ some (sent, next)
        → t ≡ record s { sending = next; wire = s.wire ++ map batch sent }
        → Step s t
    message_arrives :
        (m : Message A) (rest : List (Message A)) (r : RecvInfo A)
        → s.receiving.completed ≡ false
        → s.wire ≡ m ∷ rest
        → arrive comm_buffer_size junk m s.receiving ≡ some r
        → t ≡ record s { wire = rest; receiving = r }
        → Step s t

  pub data Reach (s : Transfer A) : Transfer A → Type 0 where
    here : Reach s s
    further : {t u : Transfer A} → Reach s t → Step t u → Reach s u

  -- After `send` and `recv` have been called: the count is being sent, and the receive for it is
  -- posted. The receiver's count is not set yet.
  abbrev pub posted : Option (List A) → ℕ → Transfer A
  posted recv_buffer unset = record {
    sending = some 0;
    wire = count_message info.count ∷ [];
    receiving = record {
      recv_buffer = recv_buffer;
      comm_buffer = [];
      count = unset;
      element_size = info.element_size;
      ibatch = 0;
      completed = false;
    };
  }
