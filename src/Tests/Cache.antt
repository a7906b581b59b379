-- ===== src/Tests/Cache.antt =====
-- Groups of calls on a cache of communication buffers.
use distributed_join.Prelude.{ℕ, ◌≤◌, ◌≡◌, arith, true, false, some, [], ◌∷◌}
use distributed_join.Group.{size}
use distributed_join.Compression.{TypeId, CompressionMethod, default_format}
use distributed_join.AllToAll.Comm.{AllToAllCommBuffer, buffers_calls}
use distributed_join.Ucx.Cache.{BufferCache, setup_cache, cache_calls, deallocated_bytes}
use distributed_join.Ucx.Cache.AllToAll.{cache_lasts}
use distributed_join.Tests.{pairs, identity_codec}
use mathlib.Core.List.{Perm}

abbrev one_byte : TypeId → ℕ
one_byte d = 1

abbrev one_buffer : AllToAllCommBuffer ℕ
one_buffer = record {
  send_buffer = 1 ∷ 2 ∷ 3 ∷ [];
  recv_buffer = 0 ∷ 0 ∷ 0 ∷ [];
  send_offsets = 0 ∷ 2 ∷ 3 ∷ [];
  recv_offsets = 0 ∷ 1 ∷ 3 ∷ [];
  dtype = TypeId.int8;
  compression_method = CompressionMethod.none;
  cascaded_format = default_format;
  compressed_send_buffer = [];
  compressed_recv_buffer = [];
  compressed_send_offsets = [];
  compressed_recv_offsets = [];
}

few : size (pairs 2) ≤ 4
unfolding size
few = omega arith

cache_lasts_example :
    (t : BufferCache) × (cache_calls
        (buffers_calls identity_codec one_byte 9 false
          (pairs 2)
          2
          true
          (one_buffer ∷ one_buffer ∷ []))
        (setup_cache 1000 8 16)
      ≡ some t)
    × Perm t.buffer_cache (setup_cache 1000 8 16).buffer_cache
    × (deallocated_bytes t ≡ 128)
cache_lasts_example =
    cache_lasts identity_codec one_byte 9 (pairs 2) 2 4 true (one_buffer ∷ one_buffer ∷ []) 1000 16
      few
