-- ===== src/Communicator/Nccl.antt =====
-- communicator.cpp: `NCCLCommunicator`, which sends and receives through aligned buffers of its own.
pub mod Groups
use distributed_join.Prelude.{
  ℕ, zero, suc, ◌+◌, ◌*◌, ◌/◌, ◌%◌, ◌<◌, ◌≤◌, ◌≡◌, refl, sym, ap, ap₂, ◌∙◌, arith, List, [], ◌∷◌,
  ◌++◌, map, map-append, append-nil, append_assoc, length, get_or, length-append,
}
use distributed_join.Prelude.Ranges.{range, get_or-append, map-range_ext}
use distributed_join.Communicator.{Call, start, stop, send, recv}

unfoldable pub aligned_size : ℕ → ℕ
aligned_size bytes = (bytes + 255) / 256 * 256

-- A receive buffer of the caller: one of the rank's buffers, and a place in it.
pub record Place : Type 0 where
  pub buffer : ℕ
  pub offset : ℕ

abbrev pub no_place : Place
no_place = record { buffer = 0; offset = 0 }

-- The vectors of the communicator; of a communication buffer, the number of bytes allocated.
pub record NcclCommunicator : Type 0 where
  pub comm_buffers : List ℕ
  pub comm_buffer_sizes : List ℕ
  pub recv_buffers : List Place
  pub recv_buffer_idx : List ℕ

abbrev pub cleared : NcclCommunicator
cleared = record {
  comm_buffers = [];
  comm_buffer_sizes = [];
  recv_buffers = [];
  recv_buffer_idx = [];
}

-- A copy at the end: how many bytes of which communication buffer go where.
pub record Copy : Type 0 where
  pub target : Place
  pub source : ℕ
  pub bytes : ℕ

module _ {A : Type 0} where
  -- `start`, `send` and `recv`; `stop` leaves the vectors as they are.
  unfoldable pub nccl_call : Call A → NcclCommunicator → NcclCommunicator
  nccl_call start s = cleared
  nccl_call stop s = s
  nccl_call (send payload count element_size dest) s = record s {
    comm_buffers = s.comm_buffers ++ aligned_size (count * element_size) ∷ [];
    comm_buffer_sizes = s.comm_buffer_sizes ++ count * element_size ∷ [];
  }
  nccl_call (recv buffer offset count element_size source) s = record {
    recv_buffers = s.recv_buffers ++ record { buffer = buffer; offset = offset } ∷ [];
    recv_buffer_idx = s.recv_buffer_idx ++ length s.comm_buffers ∷ [];
    comm_buffers = s.comm_buffers ++ aligned_size (count * element_size) ∷ [];
    comm_buffer_sizes = s.comm_buffer_sizes ++ count * element_size ∷ [];
  }

  unfoldable pub nccl_calls : List (Call A) → NcclCommunicator → NcclCommunicator
  nccl_calls [] s = s
  nccl_calls (c ∷ cs) s = nccl_calls cs (nccl_call c s)

-- The copies that `stop` makes.
unfoldable pub stop_copies : NcclCommunicator → List Copy
stop_copies s =
    map
      (λ ibuffer.
        let idx = get_or s.recv_buffer_idx ibuffer 0 in
        record {
          target = get_or s.recv_buffers ibuffer no_place;
          source = idx;
          bytes = get_or s.comm_buffer_sizes idx 0;
        })
      (range 0 (length s.recv_buffers))

-- The numbers of bytes that `stop` deallocates.
unfoldable pub stop_deallocates : NcclCommunicator → List ℕ
stop_deallocates s =
    map (λ ibuffer. aligned_size (get_or s.comm_buffer_sizes ibuffer 0))
      (range 0 (length s.comm_buffers))
