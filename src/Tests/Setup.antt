-- ===== src/Tests/Setup.antt =====
-- A communicator with registered buffers, made and destroyed.
use distributed_join.Prelude.{ℕ, ◌≡◌, refl, some, false, List, [], ◌∷◌, ◌++◌}
use distributed_join.Setup.{
  pos, Step, initialize_ucx_buffer, new_pool, setup_memory_pool_and_communicator,
  destroy_memory_pool_and_communicator, made, memory_pool_size, difference,
}
use distributed_join.Setup.Registered.{
  allocate, deallocate, deregister_buffer, cuda_free, do_request, do_requests, find, allocate_again,
  allocates_at, deregistered,
}
use distributed_join.Setup.Order.{steps, nothing, setup-destroy}

-- 4 ranks, 2840 bytes free, and 1600000 bytes for the communication buffers.
abbrev before : List Step
before = new_pool false 2560 ∷ initialize_ucx_buffer 8 (pos 100000) ∷ []

before_is : setup_memory_pool_and_communicator 4 2840 "UCX" "buffer" 1600000 ≡ made before
unfolding setup_memory_pool_and_communicator memory_pool_size difference
before_is = refl

setup-destroy_example :
    steps nothing (before ++ destroy_memory_pool_and_communicator "UCX" "buffer") ≡ some nothing
setup-destroy_example = setup-destroy 4 2840 "UCX" "buffer" 1600000 before before_is

-- Address 7 had handle 1, and has handle 2 now.
abbrev later : List (ℕ × ℕ)
later = (9, 3) ∷ (7, 2) ∷ (7, 1) ∷ []

elsewhere : allocate_again 7 (allocate 9 64 3 ∷ deallocate 9 ∷ []) ≡ false
unfolding allocate_again allocates_at
elsewhere = refl

later_is :
    do_requests ((7, 1) ∷ []) (allocate 7 64 2 ∷ allocate 9 64 3 ∷ deallocate 9 ∷ []) ≡ some later
unfolding do_requests do_request find
later_is = refl

deregistered_example :
    do_request later (deallocate 7) ≡ some (later, deregister_buffer 2 ∷ cuda_free 7 ∷ [])
deregistered_example =
    deregistered 7 ((7, 1) ∷ []) 64 2 (allocate 9 64 3 ∷ deallocate 9 ∷ []) later elsewhere later_is
