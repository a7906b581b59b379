-- ===== src/Setup.antt =====
-- setup.cpp: the communicator and the memory pool of a rank, and the order in which they go away.
pub mod Order
pub mod Registered
use Prim.Native.String.{String}
use text.Mathlib.Text.{◌==◌}
use distributed_join.Prelude.{
  ℕ, zero, suc, ◌+◌, ◌-◌, ◌*◌, ◌/◌, ◌%◌, ◌≡◌, refl, Bool, true, false, ◌&&◌, List, [], ◌∷◌, leb,
  if◌then◌else◌,
}

pub data ℤ : Type 0 where
  pos : ℕ → ℤ
  negsuc : ℕ → ℤ

unfoldable pub difference : ℕ → ℕ → ℤ
difference a b = if leb b a then pos (a - b) else negsuc (b - a - 1)

-- What is done with the communicator, the registered memory resource and the memory pool. The
-- cache of `UCXBufferCommunicator` has a number of buffers and their size; a pool has an upstream
-- resource, the registered one or not, and a size.
pub data Step : Type 0 where
  initialize_nccl : Step
  initialize_ucx : Step
  initialize_ucx_buffer : ℕ → ℤ → Step
  new_registered : Step
  new_pool : Bool → ℕ → Step
  finalize delete_pool delete_registered delete_communicator : Step

pub data Setup : Type 0 where
  runtime_error : String → Setup
  made : List Step → Setup

unfoldable pub memory_pool_size : ℕ → ℕ
memory_pool_size free_memory = free_memory / 284 * 256

unfoldable pub initialize_ucx_communicator : Bool → ℕ → ℤ → Step
initialize_ucx_communicator use_buffer_communicator num_comm_buffers comm_buffer_size =
    if use_buffer_communicator
    then initialize_ucx_buffer num_comm_buffers comm_buffer_size
    else initialize_ucx

-- The size of the communication buffers is not negative.
unfoldable pub setup_memory_pool_and_communicator : ℕ → ℕ → String → String → ℕ → Setup
unfolding initialize_ucx_communicator
setup_memory_pool_and_communicator mpi_size free_memory communicator_name registration_method
      communicator_buffer_size =
    let pool_size : ℕ = memory_pool_size free_memory in
    let num_comm_buffers : ℕ = 2 * mpi_size in
    if communicator_name == "NCCL"
    then made (initialize_nccl ∷ new_pool false pool_size ∷ [])
    else if communicator_name == "UCX"
    then (if registration_method == "buffer"
        then made (
            new_pool false pool_size
            ∷ initialize_ucx_communicator true num_comm_buffers
                (difference (communicator_buffer_size / num_comm_buffers) 100000)
            ∷ [])
        else if registration_method == "preregistered"
        then made (
            initialize_ucx_communicator false 0 (pos 0)
            ∷ new_registered
            ∷ new_pool true pool_size
            ∷ [])
        else if registration_method == "none"
        then made (initialize_ucx_communicator false 0 (pos 0) ∷ new_pool false pool_size ∷ [])
        else runtime_error "Unknown registration method")
    else runtime_error "Unknown communicator name"

unfoldable pub destroy_memory_pool_and_communicator : String → String → List Step
destroy_memory_pool_and_communicator communicator_name registration_method =
    if communicator_name == "UCX" && registration_method == "buffer"
    then finalize ∷ delete_pool ∷ delete_registered ∷ delete_communicator ∷ []
    else delete_pool ∷ delete_registered ∷ finalize ∷ delete_communicator ∷ []
