-- ===== src/AllToAll/Comm.antt =====
-- all_to_all_comm.cpp: `all_to_all_comm` over the buffers of a plan, and what is done afterwards.
pub mod Staged
pub mod Plain
pub mod Compressed
use distributed_join.Prelude.{
  ℕ, zero, suc, ◌+◌, ◌*◌, ◌≡◌, Bool, true, false, not, ◌&&◌, Option, some, List, [], ◌∷◌, ◌++◌, map,
  ◌==◌, if◌then◌else◌, length, get_or, replicate, ◌>>=◌,
}
use distributed_join.Prelude.Ranges.{range, flat_map, each}
use distributed_join.Prelude.Segments.{offsets_of, last_or, diffs, write_rounds}
use distributed_join.Prelude.Slices.{slice}
use distributed_join.Group.{CommunicationGroup, size, get_global_rank}
use distributed_join.Communicator.{Call, Transport, complete}
use distributed_join.Compression.{CompressionMethod, cascaded, lz4, Format, TypeId, Nvcomp}
use distributed_join.Compression.Functors.{Partition, compression_functor, decompress_partition}
use distributed_join.Compression.{cascaded_rep}
use distributed_join.AllToAll.{communicate_sizes}
use distributed_join.AllToAll.Messages.{Wire, wire_calls}

pub record AllToAllCommBuffer (A : Type 0) : Type 0 where
  pub send_buffer : List A
  pub recv_buffer : List A
  pub send_offsets : List ℕ
  pub recv_offsets : List ℕ
  pub dtype : TypeId
  pub compression_method : CompressionMethod
  pub cascaded_format : Format
  pub compressed_send_buffer : List A
  pub compressed_recv_buffer : List A
  pub compressed_send_offsets : List ℕ
  pub compressed_recv_offsets : List ℕ

abbrev pub or_else : {B : Type 0} → Option B → B → B
or_else Option.none d = d
or_else (some b) d = b

-- The member is this rank, whose own partition is left out.
abbrev pub left_out : CommunicationGroup → ℕ → Bool → ℕ → Bool
left_out g mpi_rank include_current_rank local_idx =
    not include_current_rank && (get_global_rank g local_idx == mpi_rank)

module _ {A : Type 0} (nvcomp : Nvcomp A) (size_of : TypeId → ℕ) (junk : A) where
  -- `uncompressed_data` and `uncompressed_counts`.
  abbrev pub uncompressed : CommunicationGroup → ℕ → Bool → AllToAllCommBuffer A → ℕ → Partition A
  uncompressed g mpi_rank include b local_idx =
      if left_out g mpi_rank include local_idx then record { items = []; count = 0 } else record {
        items =
            slice b.send_buffer (get_or b.send_offsets local_idx 0 * size_of b.dtype)
              (diffs b.send_offsets local_idx * size_of b.dtype);
        count = diffs b.send_offsets local_idx;
      }

  -- The partitions of a buffer compressed, and merged into one buffer.
  unfoldable pub compress_buffer :
      CommunicationGroup → ℕ → Bool → AllToAllCommBuffer A → Option (AllToAllCommBuffer A)
  compress_buffer g mpi_rank include b = do
    compressed_buffers ←
        compression_functor nvcomp b.dtype b.cascaded_format
          (map (uncompressed g mpi_rank include b) (range 0 (size g)))
    let offsets = offsets_of 0 (map length compressed_buffers)
    some (record b {
      compressed_send_offsets = offsets;
      compressed_send_buffer =
          write_rounds (left_out g mpi_rank include) (λ i. get_or offsets i 0)
            (λ i. get_or compressed_buffers i []) (range 0 (size g))
            (replicate (last_or offsets 0) junk);
    })

  -- The compression method of a buffer that is not sent as it is; any but `cascaded` fails the
  -- assertion.
  abbrev pub to_compress :
      CompressionMethod
      → AllToAllCommBuffer A
      → Option (AllToAllCommBuffer A)
      → Option (AllToAllCommBuffer A)
  to_compress CompressionMethod.none b compressed = some b
  to_compress cascaded b compressed = compressed
  to_compress lz4 b compressed = Option.none

  -- A buffer of rank `r` before its data is sent; `column` is the same buffer on each rank.
  unfoldable pub stage_buffer :
      Transport ℕ
      → (ℕ → CommunicationGroup)
      → Bool
      → (ℕ → AllToAllCommBuffer A)
      → ℕ
      → Option (AllToAllCommBuffer A)
  stage_buffer mpi groups include column r =
      to_compress (column r).compression_method (column r) (do
        b ← compress_buffer (groups r) r include (column r)
        recv_offsets ←
            communicate_sizes mpi groups
              (λ k.
                (or_else (compress_buffer (groups k) k include (column k))
                  (column k)).compressed_send_offsets)
              r
        some (record b {
          compressed_recv_offsets = recv_offsets;
          compressed_recv_buffer = replicate (last_or recv_offsets 0) junk;
        }))

  -- What is sent of a buffer, and where it is received: the data, or the compressed data.
  abbrev pub wire_by : CompressionMethod → AllToAllCommBuffer A → Wire A
  wire_by CompressionMethod.none b = record {
    items = b.send_buffer;
    send_offsets = b.send_offsets;
    recv_offsets = b.recv_offsets;
    item_size = size_of b.dtype;
  }
  wire_by _ b = record {
    items = b.compressed_send_buffer;
    send_offsets = b.compressed_send_offsets;
    recv_offsets = b.compressed_recv_offsets;
    item_size = 1;
  }

  abbrev pub wire : AllToAllCommBuffer A → Wire A
  wire b = wire_by b.compression_method b

  abbrev pub target_by : CompressionMethod → AllToAllCommBuffer A → List A
  target_by CompressionMethod.none b = b.recv_buffer
  target_by _ b = b.compressed_recv_buffer

  abbrev pub target : AllToAllCommBuffer A → List A
  target b = target_by b.compression_method b

  abbrev pub received_by : CompressionMethod → AllToAllCommBuffer A → List A → AllToAllCommBuffer A
  received_by CompressionMethod.none b got = record b { recv_buffer = got }
  received_by _ b got = record b { compressed_recv_buffer = got }

  abbrev pub received : AllToAllCommBuffer A → List A → AllToAllCommBuffer A
  received b got = received_by b.compression_method b got

  abbrev pub no_buffer : AllToAllCommBuffer A
  no_buffer = record {
    send_buffer = [];
    recv_buffer = [];
    send_offsets = [];
    recv_offsets = [];
    dtype = TypeId.int8;
    compression_method = CompressionMethod.none;
    cascaded_format = record { num_rles = 0; num_deltas = 0; use_bp = 0 };
    compressed_send_buffer = [];
    compressed_recv_buffer = [];
    compressed_send_offsets = [];
    compressed_recv_offsets = [];
  }

  abbrev pub nth : List (AllToAllCommBuffer A) → ℕ → AllToAllCommBuffer A
  nth bs b = get_or bs b no_buffer

  -- The calls on the communicator for the staged buffers; `batch` is `group_by_batch()`.
  abbrev pub buffers_calls :
      Bool → CommunicationGroup → ℕ → Bool → List (AllToAllCommBuffer A) → List (Call A)
  buffers_calls batch g mpi_rank include bs =
      flat_map (λ b. wire_calls batch g mpi_rank include b (wire (nth bs b))) (range 0 (length bs))

  -- `all_to_all_comm` on rank `r`, over the buffers of all ranks.
  unfoldable pub all_to_all_comm :
      Transport A
      → Transport ℕ
      → (ℕ → CommunicationGroup)
      → Bool
      → Bool
      → (ℕ → List (AllToAllCommBuffer A))
      → ℕ
      → Option (List (AllToAllCommBuffer A))
  all_to_all_comm t mpi groups batch include buffers r = do
    let staged = λ (k : ℕ).
        each (λ b. stage_buffer mpi groups include (λ j. nth (buffers j) b) k)
          (range 0 (length (buffers k)))
    let calls = λ (k : ℕ). buffers_calls batch (groups k) k include (or_else (staged k) [])
    bs ← staged r
    m ← complete (calls r) (t.inbox calls r, map target bs)
    some (map (λ b. received (nth bs b) (get_or m.1 b [])) (range 0 (length bs)))

  -- One buffer of `postprocess_all_to_all_comm`: its partitions decompressed into their places.
  unfoldable pub postprocess_buffer :
      CommunicationGroup → ℕ → Bool → AllToAllCommBuffer A → Option (AllToAllCommBuffer A)
  postprocess_buffer g mpi_rank include b = do
    rep ← cascaded_rep b.dtype
    outputs ←
        each
          (λ local_idx.
            if left_out g mpi_rank include local_idx
            then some []
            else decompress_partition nvcomp rep (size_of b.dtype)
                (slice b.compressed_recv_buffer (get_or b.compressed_recv_offsets local_idx 0)
                  (diffs b.compressed_recv_offsets local_idx))
                (diffs b.recv_offsets local_idx))
          (range 0 (size g))
    some (record b {
      recv_buffer =
          write_rounds (left_out g mpi_rank include)
            (λ i. get_or b.recv_offsets i 0 * size_of b.dtype) (λ i. get_or outputs i [])
            (range 0 (size g)) b.recv_buffer;
    })

  abbrev pub postprocess_by :
      CompressionMethod
      → AllToAllCommBuffer A
      → Option (AllToAllCommBuffer A)
      → Option (AllToAllCommBuffer A)
  postprocess_by CompressionMethod.none b decompressed = some b
  postprocess_by _ b decompressed = decompressed

  unfoldable pub postprocess_all_to_all_comm :
      CommunicationGroup
      → ℕ
      → Bool
      → List (AllToAllCommBuffer A)
      → Option (List (AllToAllCommBuffer A))
  postprocess_all_to_all_comm g mpi_rank include =
      each (λ b. postprocess_by b.compression_method b (postprocess_buffer g mpi_rank include b))
