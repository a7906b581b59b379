-- ===== src/Ucx/Cache.antt =====
-- communicator.cpp: the cache of communication buffers of `UCXBufferCommunicator`, and the pending
-- requests of `MPILikeCommunicator`.
pub mod AllToAll
pub mod Groups
use distributed_join.Prelude.{
  ℕ, ◌+◌, ◌*◌, Option, none, some, List, [], ◌∷◌, ◌++◌, map, length, ◌>>=◌,
}
use distributed_join.Prelude.Ranges.{range}
use distributed_join.Communicator.{Call, start, stop, send, recv}

-- `buffer_cache` holds addresses, the front of the queue first; a pending request is known by its
-- communication buffer.
pub record BufferCache : Type 0 where
  pub comm_buffer_size : ℕ
  pub cache_start_addr : ℕ
  pub buffer_cache : List ℕ
  pub pending_requests : List ℕ

-- The memory is allocated at `cache_start_addr`.
unfoldable pub setup_cache : ℕ → ℕ → ℕ → BufferCache
setup_cache cache_start_addr ncaches buffer_size = record {
  comm_buffer_size = buffer_size;
  cache_start_addr = cache_start_addr;
  buffer_cache = map (λ icache. cache_start_addr + icache * buffer_size) (range 0 ncaches);
  pending_requests = [];
}

-- `send` and `recv` take a buffer, and throw where there is none; the request is pending.
unfoldable pub take_buffer : BufferCache → Option BufferCache
take_buffer s = elim s.buffer_cache [
  | [] ↦ none
  | comm_buffer ∷ rest ↦
      some (record s {
        buffer_cache = rest;
        pending_requests = s.pending_requests ++ comm_buffer ∷ [];
      })
]

-- `waitall`, when all requests are completed.
unfoldable pub waitall : BufferCache → List ℕ → BufferCache
waitall s requests = record s { buffer_cache = s.buffer_cache ++ requests }

unfoldable pub cache_call : {A : Type 0} → Call A → BufferCache → Option BufferCache
unfolding take_buffer waitall
cache_call start s = some (record s { pending_requests = [] })
cache_call stop s = some (waitall s s.pending_requests)
cache_call (send payload count element_size dest) s = take_buffer s
cache_call (recv buffer offset count element_size source) s = take_buffer s

unfoldable pub cache_calls : {A : Type 0} → List (Call A) → BufferCache → Option BufferCache
unfolding cache_call
cache_calls [] s = some s
cache_calls (c ∷ cs) s = cache_call c s >>= cache_calls cs

-- The bytes that `finalize` gives back.
unfoldable pub deallocated_bytes : BufferCache → ℕ
deallocated_bytes s = s.comm_buffer_size * length s.buffer_cache
