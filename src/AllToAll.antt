-- ===== src/AllToAll.antt =====
-- all_to_all_comm.cpp: the sizes and the items that the ranks of a group exchange.
pub mod Messages
pub mod Sizes
pub mod Comm
pub mod Warmup
pub mod Table
use distributed_join.Prelude.{
  ℕ, zero, suc, ◌+◌, ◌-◌, ◌*◌, ◌≡◌, Bool, true, false, not, ◌&&◌, Option, none, some, List, [], ◌∷◌,
  ◌++◌, map, ◌==◌, if◌then◌else◌, length, get_or, replicate,
}
use distributed_join.Prelude.Ranges.{range, flat_map}
use distributed_join.Prelude.Segments.{offsets_of, diffs}
use distributed_join.Prelude.Slices.{slice}
use distributed_join.Group.{CommunicationGroup, size, get_global_rank}
use distributed_join.Communicator.{
  Call, start, stop, send, recv, Transport, Memory, complete, ◌>>=◌,
}

-- `send_count`. The offsets do not fall, so no difference is negative.
abbrev pub send_counts : List ℕ → ℕ → List ℕ
send_counts send_offset comm_group_size = map (diffs send_offset) (range 0 comm_group_size)

-- The MPI calls of `communicate_sizes`: one number to each member, one from each.
unfoldable pub communicate_sizes_calls : List ℕ → CommunicationGroup → List (Call ℕ)
communicate_sizes_calls send_offset g =
    let send_count = send_counts send_offset (size g) in
    flat_map
      (λ local_idx.
        send (get_or send_count local_idx 0 ∷ []) 1 1 (get_global_rank g local_idx) ∷ [])
      (range 0 (size g))
    ++ flat_map (λ local_idx. recv 0 local_idx 1 1 (get_global_rank g local_idx) ∷ [])
        (range 0 (size g))

-- `communicate_sizes` on rank `r`; the two waits complete the receives. The receive counts start
-- as -1, here 0, and are all overwritten.
unfoldable pub communicate_sizes :
    Transport ℕ → (ℕ → CommunicationGroup) → (ℕ → List ℕ) → ℕ → Option (List ℕ)
communicate_sizes mpi groups send_offset r = do
  let calls = λ (k : ℕ). communicate_sizes_calls (send_offset k) (groups k)
  m ← complete (calls r) (mpi.inbox calls r, replicate (size (groups r)) 0 ∷ [])
  some (offsets_of 0 (get_or m.1 0 []))

module _ {A : Type 0} where
  unfoldable pub send_data_by_offset :
      List A → List ℕ → ℕ → CommunicationGroup → ℕ → Bool → List (Call A)
  send_data_by_offset items offset item_size g mpi_rank self_send =
      flat_map
        (λ local_idx.
          let target_rank = get_global_rank g local_idx in
          if not self_send && (target_rank == mpi_rank)
          then []
          else send
              (slice items (get_or offset local_idx 0 * item_size)
                (diffs offset local_idx * item_size))
              (diffs offset local_idx) item_size target_rank
            ∷ [])
        (range 0 (size g))

  -- What is received goes to the buffer of the rank with number `buffer`.
  unfoldable pub recv_data_by_offset :
      ℕ → List ℕ → ℕ → CommunicationGroup → ℕ → Bool → List (Call A)
  recv_data_by_offset buffer offset item_size g mpi_rank self_recv =
      flat_map
        (λ local_idx.
          let source_rank = get_global_rank g local_idx in
          if not self_recv && (mpi_rank == source_rank)
          then []
          else recv buffer (get_or offset local_idx 0 * item_size) (diffs offset local_idx)
              item_size source_rank
            ∷ [])
        (range 0 (size g))
