-- ===== src/Tests/Wires.antt =====
-- The tags of UCX, a group of NCCL calls, and the buffers of the warm-up.
use distributed_join.Prelude.{ℕ, ◌≡◌, refl, arith, List, [], ◌∷◌, true}
use distributed_join.Communicator.{Call, send, recv}
use distributed_join.Communicator.Tag.{get_comm_tag_injective}
use distributed_join.Communicator.Nccl.{
  aligned_size, cleared, nccl_calls, nccl_call, stop_copies, stop_deallocates,
}
use distributed_join.Communicator.Nccl.Groups.{
  receive_copies, stop_copies_lem, stop_deallocates_lem,
}
use distributed_join.AllToAll.Warmup.{warmup_all_to_all, warmup_all_to_all_lem}

get_comm_tag_injective_example : (◌≡◌ {A = ℕ} 4294967295 4294967295) × (◌≡◌ {A = ℕ} 3 3)
get_comm_tag_injective_example =
    get_comm_tag_injective 4294967295 3 4294967295 3 (omega arith) (omega arith) (omega arith)
      (omega arith) refl

-- A send to rank 1, and receives from ranks 1 and 2 into one buffer.
abbrev group : List (Call ℕ)
group = send (5 ∷ 6 ∷ []) 1 2 1 ∷ recv 0 0 2 4 1 ∷ recv 0 8 100 4 2 ∷ []

stop_copies_example : stop_copies (nccl_calls group cleared) ≡ receive_copies 0 group
stop_copies_example = stop_copies_lem group tt

stop_deallocates_example :
    stop_deallocates (nccl_calls group cleared) ≡ (nccl_calls group cleared).comm_buffers
stop_deallocates_example = stop_deallocates_lem group tt

allocated_sizes : (nccl_calls group cleared).comm_buffers ≡ 256 ∷ 256 ∷ 512 ∷ []
unfolding nccl_calls nccl_call aligned_size
allocated_sizes = refl

warmup_all_to_all_example : warmup_all_to_all 1 4 2 ≡ true
warmup_all_to_all_example = warmup_all_to_all_lem 1 4 2 (omega arith) (omega arith)
