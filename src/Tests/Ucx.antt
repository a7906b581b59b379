-- ===== src/Tests/Ucx.antt =====
-- Three elements sent through communication buffers that hold two.
use distributed_join.Prelude.{
  ℕ, ◌<◌, ◌≡◌, refl, arith, true, false, Option, none, some, List, [], ◌∷◌,
}
use distributed_join.Ucx.{
  Message, count_message, batch, SendInfo, RecvInfo, send_batches, send_handler,
  allocate_receive_buffer, copy_batch, recv_handler, arrive,
}
use distributed_join.Prelude.Slices.{write_at}
use distributed_join.Ucx.Transfer.{
  Transfer, Step, send_completes, message_arrives, Reach, here, further, posted,
}
use distributed_join.Ucx.Delivered.{completed_buffer}
use distributed_join.Ucx.Ends.{remaining, Step-remaining, transfer_ends}
use distributed_join.Ucx.Small.{small_buffer}

abbrev three : SendInfo ℕ
three = record { send_buffer = 5 ∷ 6 ∷ 7 ∷ []; count = 3; element_size = 1; ibatch = 0 }

abbrev room : Option (List ℕ)
room = some (0 ∷ 0 ∷ 0 ∷ 9 ∷ [])

abbrev at_start : Transfer ℕ
at_start = posted 2 three 8 room 4

-- The state after each step: the receiver's buffer, its communication buffer and its batch.
abbrev moment : Option ℕ → List (Message ℕ) → List ℕ → List ℕ → ℕ → Transfer ℕ
moment sending wire buffer comm_buffer ibatch = record {
  sending = sending;
  wire = wire;
  receiving = record {
    recv_buffer = some buffer;
    comm_buffer = comm_buffer;
    count = 3;
    element_size = 1;
    ibatch = ibatch;
    completed = false;
  };
}

abbrev counted : Transfer ℕ
counted = moment (some 0) [] (0 ∷ 0 ∷ 0 ∷ 9 ∷ []) [] 1

abbrev one_sent : Transfer ℕ
one_sent = moment (some 1) (batch (5 ∷ 6 ∷ []) ∷ []) (0 ∷ 0 ∷ 0 ∷ 9 ∷ []) [] 1

abbrev one_arrived : Transfer ℕ
one_arrived = moment (some 1) [] (5 ∷ 6 ∷ 0 ∷ 9 ∷ []) (5 ∷ 6 ∷ []) 2

abbrev two_sent : Transfer ℕ
two_sent = moment none (batch (7 ∷ []) ∷ []) (5 ∷ 6 ∷ 0 ∷ 9 ∷ []) (5 ∷ 6 ∷ []) 2

abbrev all_arrived : Transfer ℕ
all_arrived = record {
  sending = none;
  wire = [];
  receiving = record {
    recv_buffer = some (5 ∷ 6 ∷ 7 ∷ 9 ∷ []);
    comm_buffer = 7 ∷ [];
    count = 3;
    element_size = 1;
    ibatch = 2;
    completed = true;
  };
}

to_counted : Step 2 three 8 at_start counted
unfolding arrive recv_handler copy_batch allocate_receive_buffer
to_counted = message_arrives (count_message 3) [] counted.receiving refl refl refl refl

-- The first batch is on its way, the second is complete at once.
to_one_sent : Step 2 three 8 counted one_sent
unfolding send_handler send_batches
to_one_sent = send_completes (λ i. false) 0 ((5 ∷ 6 ∷ []) ∷ []) (some 1) refl refl refl

to_one_arrived : Step 2 three 8 one_sent one_arrived
unfolding arrive recv_handler copy_batch allocate_receive_buffer write_at
to_one_arrived = message_arrives (batch (5 ∷ 6 ∷ [])) [] one_arrived.receiving refl refl refl refl

to_two_sent : Step 2 three 8 one_arrived two_sent
unfolding send_handler send_batches
to_two_sent = send_completes (λ i. true) 1 ((7 ∷ []) ∷ []) none refl refl refl

to_all_arrived : Step 2 three 8 two_sent all_arrived
unfolding arrive recv_handler copy_batch allocate_receive_buffer write_at
to_all_arrived = message_arrives (batch (7 ∷ [])) [] all_arrived.receiving refl refl refl refl

all_reached : Reach 2 three 8 at_start all_arrived
all_reached =
    further
      (further (further (further (further here to_counted) to_one_sent) to_one_arrived) to_two_sent)
      to_all_arrived

completed_buffer_example :
    (all_arrived.receiving.recv_buffer ≡ some (5 ∷ 6 ∷ 7 ∷ 9 ∷ [])) × (all_arrived.wire ≡ [])
completed_buffer_example =
    completed_buffer 2 three 8 room (omega arith) (omega arith) (omega arith) 4 all_reached refl

transfer_ends_example :
    (u : Transfer ℕ) × Reach 2 three 8 counted u
    × ((u.sending ≡ none) × (u.receiving.completed ≡ true))
    × (u.receiving.recv_buffer ≡ some (5 ∷ 6 ∷ 7 ∷ 9 ∷ []))
transfer_ends_example =
    transfer_ends 2 three 8 room (omega arith) (omega arith) (omega arith) 4 counted
      (further here to_counted)

Step-remaining_example :
    remaining 2 three 8 room (omega arith) (omega arith) (omega arith) 4 one_sent
    < remaining 2 three 8 room (omega arith) (omega arith) (omega arith) 4 counted
Step-remaining_example =
    Step-remaining 2 three 8 room (omega arith) (omega arith) (omega arith) 4 to_one_sent

-- Elements of 4 bytes, and communication buffers of 2.
abbrev wide : SendInfo ℕ
wide = record { send_buffer = 5 ∷ 6 ∷ 7 ∷ 8 ∷ []; count = 1; element_size = 4; ibatch = 0 }

abbrev receiver : RecvInfo ℕ
receiver = record {
  recv_buffer = some (0 ∷ 0 ∷ 0 ∷ 0 ∷ []);
  comm_buffer = [];
  count = 1;
  element_size = 4;
  ibatch = 0;
  completed = false;
}

small_buffer_example :
    (send_handler 2 100 (λ _. true) wide ≡ none)
    × ((recv_handler 2 8 receiver).completed ≡ true)
    × ((recv_handler 2 8 receiver).recv_buffer ≡ allocate_receive_buffer 8 receiver)
small_buffer_example = small_buffer 2 wide (omega arith) 100 8 receiver (omega arith) refl
