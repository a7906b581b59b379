-- ===== src/Tests/Exchange.antt =====
-- Two ranks of a group of four exchange sizes and items.
use mathlib.Core.Bool.{true≢false}
use distributed_join.Prelude.{
  ℕ, zero, suc, ◌+◌, ◌*◌, ◌≡◌, ◌<◌, ◌≤◌, refl, sym, ap, Bool, true, false, some, List, [], ◌∷◌, map,
  arith, length, get_or,
}
use distributed_join.Prelude.Ranges.{range}
use distributed_join.Prelude.Segments.{offsets_of, diffs, partial_sum}
use distributed_join.Prelude.Slices.{write_at, slice}
use distributed_join.Group.{size, get_global_rank, get_local_idx}
use distributed_join.Group.Collective.{IsCollective, made-IsCollective}
use distributed_join.Communicator.{Inbox, complete, receive}
use distributed_join.Compression.{TypeId, CompressionMethod}
use distributed_join.AllToAll.{communicate_sizes, communicate_sizes_calls}
use distributed_join.AllToAll.Sizes.{counts_for, communicate_sizes_lem}
use distributed_join.AllToAll.Messages.{Wire, Fits, piece, gathered, all_calls, exchange}
use distributed_join.AllToAll.Comm.{AllToAllCommBuffer, nth, all_to_all_comm}
use distributed_join.AllToAll.Comm.Plain.{wires, IsPlain, held, plain_items, all_to_all_comm_plain}
use distributed_join.AllToAll.Table.{AllToAllCommunicator, allocate_communicated_table, no_column}
use distributed_join.AllToAll.Table.Copied.{allocate_communicated_table_lem}
use distributed_join.Tests.{fifo, pairs, pairs_made, identity_codec}

abbrev fit_together : IsCollective pairs 2
fit_together = made-IsCollective pairs 4 2 2 (omega arith) (omega arith) pairs_made

-- Two items for the first member, one for the second.
abbrev offsets : ℕ → List ℕ
offsets k = 0 ∷ 2 ∷ 3 ∷ []

communicate_sizes_example :
    communicate_sizes fifo pairs offsets 2
    ≡ some (offsets_of 0 (counts_for fifo pairs offsets 2 fit_together))
communicate_sizes_example = communicate_sizes_lem fifo pairs offsets 2 fit_together

sizes_at_2 : communicate_sizes fifo pairs offsets 2 ≡ some (0 ∷ 1 ∷ 2 ∷ [])
unfolding communicate_sizes complete communicate_sizes_calls size receive get_global_rank
    partial_sum write_at
sizes_at_2 = refl

abbrev one_wire : ℕ → ℕ → Wire ℕ
one_wire k b = record {
  items = k ∷ (k + 10) ∷ (k + 20) ∷ [];
  send_offsets = offsets k;
  recv_offsets = 0 ∷ 1 ∷ 2 ∷ [];
  item_size = 1;
}

abbrev empty_buffers : List (List ℕ)
empty_buffers = (0 ∷ 0 ∷ []) ∷ []

one_wire_fits : (b : ℕ) → b < 1 → Fits (size (pairs 2)) (one_wire 2 b) (get_or empty_buffers b [])
unfolding size
one_wire_fits zero h = record { first = refl; climbs = climbs; whole = refl }
  where
    climbs :
        (k : ℕ)
        → k < size (pairs 2)
        → get_or (0 ∷ 1 ∷ 2 ∷ []) k 0 ≤ get_or (0 ∷ 1 ∷ 2 ∷ []) (k + 1) 0
    climbs zero p = omega arith
    climbs (suc zero) p = omega arith
    climbs (suc (suc k)) p = absurd (omega arith)
one_wire_fits (suc b) h = absurd (omega arith)

one_wire_alike :
    (b i : ℕ)
    → b < 1
    → i < size (pairs 2)
    → length (piece fifo pairs false true 1 one_wire 2 fit_together b i)
      ≡ diffs (one_wire 2 b).recv_offsets i * (one_wire 2 b).item_size
unfolding size get_local_idx
one_wire_alike b zero p h = refl
one_wire_alike b (suc zero) p h = refl
one_wire_alike b (suc (suc i)) p h = absurd (omega arith)

exchange_example :
    (left : Inbox ℕ) × (bs : List (List ℕ)) × (complete
        (all_calls fifo pairs false true 1 one_wire 2 fit_together 2)
        (fifo.inbox (all_calls fifo pairs false true 1 one_wire 2 fit_together) 2, empty_buffers)
      ≡ some (left, bs))
    × ((b : ℕ)
        → b < 1
        → get_or bs b []
          ≡ gathered fifo pairs false true 1 one_wire 2 fit_together empty_buffers refl
              one_wire_fits one_wire_alike b)
exchange_example =
    exchange fifo pairs false true 1 one_wire 2 fit_together empty_buffers refl one_wire_fits
      one_wire_alike

gathered_at_2 :
    gathered fifo pairs false true 1 one_wire 2 fit_together empty_buffers refl one_wire_fits
      one_wire_alike 0
    ≡ 20 ∷ 22 ∷ []
unfolding size get_local_idx get_global_rank
gathered_at_2 = refl

abbrev unit_size : TypeId → ℕ
unit_size d = 1

abbrev plain_buffers : ℕ → List (AllToAllCommBuffer ℕ)
plain_buffers k =
    record {
      send_buffer = k ∷ (k + 10) ∷ (k + 20) ∷ [];
      recv_buffer = 0 ∷ 0 ∷ [];
      send_offsets = offsets k;
      recv_offsets = 0 ∷ 1 ∷ 2 ∷ [];
      dtype = TypeId.int8;
      compression_method = CompressionMethod.none;
      cascaded_format = record { num_rles = 0; num_deltas = 0; use_bp = 0 };
      compressed_send_buffer = [];
      compressed_recv_buffer = [];
      compressed_send_offsets = [];
      compressed_recv_offsets = [];
    }
    ∷ []

all_plain :
    IsPlain identity_codec unit_size 9 fifo fifo pairs true true plain_buffers 2 fit_together
all_plain k zero = refl
all_plain k (suc b) = refl

plain_fits :
    (b : ℕ)
    → b < 1
    → Fits
        (size (pairs 2))
        (wires identity_codec unit_size 9 fifo fifo pairs true true plain_buffers 2 fit_together 2
          b)
        (get_or
          (held identity_codec unit_size 9 fifo fifo pairs true true plain_buffers 2 fit_together)
          b
          [])
plain_fits zero h = one_wire_fits zero h
plain_fits (suc b) h = absurd (omega arith)

plain_alike :
    (b i : ℕ)
    → b < 1
    → i < size (pairs 2)
    → length (
        piece fifo pairs true true 1
          (wires identity_codec unit_size 9 fifo fifo pairs true true plain_buffers 2 fit_together)
          2
          fit_together
          b
          i)
      ≡ diffs
          (wires identity_codec unit_size 9 fifo fifo pairs true true plain_buffers 2 fit_together 2
            b).recv_offsets
          i
        * (wires identity_codec unit_size 9 fifo fifo pairs true true plain_buffers 2 fit_together 2
            b).item_size
plain_alike zero i p h = one_wire_alike zero i p h
plain_alike (suc b) i p h = absurd (omega arith)

all_to_all_comm_plain_example :
    all_to_all_comm identity_codec unit_size 9 fifo fifo pairs true true plain_buffers 2
    ≡ some (
        map
          (λ b. record (nth identity_codec unit_size 9 (plain_buffers 2) b) {
            recv_buffer =
                plain_items identity_codec unit_size 9 fifo fifo pairs true true plain_buffers 2
                  fit_together all_plain
                  (λ k. refl)
                  plain_fits
                  plain_alike
                  b;
          })
          (range 0 1))
all_to_all_comm_plain_example =
    all_to_all_comm_plain identity_codec unit_size 9 fifo fifo pairs true true plain_buffers 2
      fit_together all_plain (λ k. refl) plain_fits plain_alike

-- Rank 2, with the index 1, has items 1 and 2 for member 0 and item 3 for itself.
abbrev object : AllToAllCommunicator ℕ
object = record {
  input_table = record { dtype = TypeId.int8; items = 1 ∷ 2 ∷ 3 ∷ [] } ∷ [];
  send_offsets = 0 ∷ 2 ∷ 3 ∷ [];
  recv_offsets = 0 ∷ 4 ∷ 5 ∷ [];
  compression_options = [];
  explicit_copy_to_current_rank = true;
}

is_string : TypeId → Bool
is_string TypeId.string = true
is_string d = false

is_int8 : TypeId.int8 ≡ TypeId.string → ⊥
unfolding is_string
is_int8 p = true≢false (sym (ap is_string p))

allocate_communicated_table_example :
    slice
      (get_or
        (allocate_communicated_table unit_size 9 (pairs 2) object)
        0
        (no_column unit_size 9)).items
      (get_or object.recv_offsets (get_local_idx (pairs 2)) 0 * 1)
      (diffs object.recv_offsets (get_local_idx (pairs 2)) * 1)
    ≡ slice
        (1 ∷ 2 ∷ 3 ∷ [])
        (get_or object.send_offsets (get_local_idx (pairs 2)) 0 * 1)
        (diffs object.recv_offsets (get_local_idx (pairs 2)) * 1)
unfolding get_local_idx
allocate_communicated_table_example =
    allocate_communicated_table_lem unit_size 9 (pairs 2) object 0 (omega arith) refl (omega arith)
      (omega arith) is_int8
