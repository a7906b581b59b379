-- ===== src/Tests/Compressed.antt =====
-- Two ranks of a group of four exchange a compressed buffer.
use distributed_join.Prelude.{
  ℕ, zero, suc, ◌+◌, ◌*◌, ◌≡◌, ◌<◌, ◌≤◌, refl, true, some, List, [], ◌∷◌, map, arith, length,
  get_or, ◌>>=◌,
}
use distributed_join.Prelude.Segments.{diffs, partial_sum, write_rounds}
use distributed_join.Prelude.Slices.{write_at}
use distributed_join.Group.{size, get_global_rank, get_local_idx}
use distributed_join.Group.Collective.{IsCollective, made-IsCollective}
use distributed_join.Compression.{TypeId, CompressionMethod, Nvcomp, default_format, cascaded_rep}
use distributed_join.Compression.Functors.{
  compression_functor, compress_partition, decompress_partition,
}
use distributed_join.Communicator.{complete, receive}
use distributed_join.AllToAll.{
  communicate_sizes, communicate_sizes_calls, send_data_by_offset, recv_data_by_offset,
}
use distributed_join.AllToAll.Messages.{Wire, Fits, piece}
use distributed_join.AllToAll.Comm.Plain.{wires, held}
use distributed_join.AllToAll.Comm.{
  AllToAllCommBuffer, no_buffer, all_to_all_comm, stage_buffer, compress_buffer, postprocess_buffer,
  postprocess_all_to_all_comm,
}
use distributed_join.AllToAll.Comm.Compressed.{IsCompressed}
use distributed_join.AllToAll.Comm.Compressed.Restored.{IsRoomy}
use distributed_join.AllToAll.Comm.Compressed.Same.{
  uncompressed_buffer, received_data, compressed_same,
}
use distributed_join.Tests.{fifo, pairs, pairs_made}

abbrev members_fit : (k : ℕ) → IsCollective pairs k
members_fit k = made-IsCollective pairs 4 2 k (omega arith) (omega arith) pairs_made

abbrev rest : List ℕ → List ℕ
rest [] = []
rest (x ∷ xs) = xs

-- A compressor that puts a number in front of the data.
abbrev marking_codec : Nvcomp ℕ
marking_codec = record {
  select_config = λ ty xs. default_format;
  compress = λ ty f xs. 7 ∷ xs;
  decompress = λ ty xs. rest xs;
  restores = λ ty f xs. refl;
}

abbrev width : TypeId → ℕ
width d = 1

abbrev packed : ℕ → List (AllToAllCommBuffer ℕ)
packed k =
    record {
      send_buffer = k ∷ (k + 10) ∷ (k + 20) ∷ [];
      recv_buffer = 0 ∷ 0 ∷ [];
      send_offsets = 0 ∷ 2 ∷ 3 ∷ [];
      recv_offsets = 0 ∷ 1 ∷ 2 ∷ [];
      dtype = TypeId.int8;
      compression_method = CompressionMethod.cascaded;
      cascaded_format = default_format;
      compressed_send_buffer = [];
      compressed_recv_buffer = [];
      compressed_send_offsets = [];
      compressed_recv_offsets = [];
    }
    ∷ []

packed_ready : IsCompressed marking_codec width 9 packed 1 (λ _. TypeId.int8) (λ _. TypeId.int8)
unfolding cascaded_rep
packed_ready = record { same = λ k. refl; methods = methods; types = types; supported = supported }
  where
    methods :
        (k b : ℕ)
        → b < 1
        → (get_or (packed k) b (no_buffer marking_codec width 9)).compression_method
          ≡ CompressionMethod.cascaded
    methods k zero h = refl
    methods k (suc b) h = absurd (omega arith)

    types :
        (k b : ℕ)
        → b < 1
        → (get_or (packed k) b (no_buffer marking_codec width 9)).dtype ≡ TypeId.int8
    types k zero h = refl
    types k (suc b) h = absurd (omega arith)

    supported : (b : ℕ) → b < 1 → cascaded_rep TypeId.int8 ≡ some TypeId.int8
    supported b h = refl

abbrev data_wires : ℕ → ℕ → Wire ℕ
data_wires = wires marking_codec width 9 fifo fifo pairs true true packed 2 (members_fit 2)

abbrev data_held : List (List ℕ)
data_held = held marking_codec width 9 fifo fifo pairs true true packed 2 (members_fit 2)

data_fits : (b : ℕ) → b < 1 → Fits (size (pairs 2)) (data_wires 2 b) (get_or data_held b [])
unfolding size
data_fits zero h = record { first = refl; climbs = climbs; whole = refl }
  where
    climbs :
        (k : ℕ)
        → k < size (pairs 2)
        → get_or (0 ∷ 1 ∷ 2 ∷ []) k 0 ≤ get_or (0 ∷ 1 ∷ 2 ∷ []) (k + 1) 0
    climbs zero p = omega arith
    climbs (suc zero) p = omega arith
    climbs (suc (suc k)) p = absurd (omega arith)
data_fits (suc b) h = absurd (omega arith)

data_counts :
    (b i : ℕ)
    → b < 1
    → i < size (pairs 2)
    → diffs (data_wires 2 b).recv_offsets i
      ≡ diffs (data_wires (get_global_rank (pairs 2) i) b).send_offsets (get_local_idx (pairs 2))
unfolding size get_local_idx get_global_rank
data_counts zero zero p h = refl
data_counts zero (suc zero) p h = refl
data_counts zero (suc (suc i)) p h = absurd (omega arith)
data_counts (suc b) i p h = absurd (omega arith)

data_alike :
    (b i : ℕ)
    → b < 1
    → i < size (pairs 2)
    → length (piece fifo pairs true true 1 data_wires 2 (members_fit 2) b i)
      ≡ diffs (data_wires 2 b).recv_offsets i * (data_wires 2 b).item_size
unfolding size get_local_idx get_global_rank
data_alike zero zero p h = refl
data_alike zero (suc zero) p h = refl
data_alike zero (suc (suc i)) p h = absurd (omega arith)
data_alike (suc b) i p h = absurd (omega arith)

packed_roomy :
    IsRoomy marking_codec width 9 fifo fifo pairs true true packed members_fit 1
      (λ _. TypeId.int8)
      (λ _. TypeId.int8)
      packed_ready
      2
packed_roomy = record { fits = data_fits; counts = data_counts; alike = data_alike }

-- Members 0 and 2 have their last item for rank 2.
received_at_2 :
    received_data (
      all_to_all_comm marking_codec width 9 fifo fifo pairs true true packed 2
      >>= postprocess_all_to_all_comm marking_codec width 9 (pairs 2) 2 true)
    ≡ some ((20 ∷ 22 ∷ []) ∷ [])
unfolding all_to_all_comm postprocess_all_to_all_comm stage_buffer compress_buffer
    compression_functor cascaded_rep communicate_sizes complete communicate_sizes_calls size receive
    get_global_rank send_data_by_offset recv_data_by_offset partial_sum compress_partition
    write_rounds write_at postprocess_buffer decompress_partition
received_at_2 = refl

compressed_same_example :
    (received : List (List ℕ)) × (received_data (
        all_to_all_comm marking_codec width 9 fifo fifo pairs true true packed 2
        >>= postprocess_all_to_all_comm marking_codec width 9 (pairs 2) 2 true)
      ≡ some received)
    × (received_data (
          all_to_all_comm marking_codec width 9 fifo fifo pairs true true
            (λ k. map uncompressed_buffer (packed k))
            2
          >>= postprocess_all_to_all_comm marking_codec width 9 (pairs 2) 2 true)
        ≡ some received)
compressed_same_example =
    compressed_same marking_codec width 9 fifo fifo pairs true true packed members_fit 1
      (λ _. TypeId.int8) (λ _. TypeId.int8) packed_ready 2 packed_roomy
