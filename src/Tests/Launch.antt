-- ===== src/Tests/Launch.antt =====
-- Rank 2 receives the rows of one column from the members of its group.
use distributed_join.Prelude.{
  ℕ, zero, suc, ◌+◌, ◌*◌, ◌≡◌, ◌<◌, ◌≤◌, refl, arith, true, some, List, [], ◌∷◌, map, length,
  get_or,
}
use distributed_join.Prelude.Ranges.{range, flat_map}
use distributed_join.Prelude.Segments.{offsets_of, diffs, partial_sum}
use distributed_join.Group.{size, get_global_rank, get_local_idx}
use distributed_join.Group.Collective.{IsCollective, made-IsCollective}
use distributed_join.Compression.{Leaf, TypeId}
use distributed_join.AllToAll.Sizes.{counts_for}
use distributed_join.AllToAll.Table.{
  AllToAllCommunicator, allocate_communicated_table, launch_communication,
}
use distributed_join.AllToAll.Table.Launch.{rows_from, launch_communication_lem}
use distributed_join.Tests.{fifo, pairs, pairs_made, identity_codec}

abbrev fit_together : IsCollective pairs 2
fit_together = made-IsCollective pairs 4 2 2 (omega arith) (omega arith) pairs_made

abbrev one_byte : TypeId → ℕ
one_byte d = 1

abbrev objects : ℕ → AllToAllCommunicator ℕ
objects k = record {
  input_table = record { dtype = TypeId.int8; items = k ∷ (k + 10) ∷ (k + 20) ∷ [] } ∷ [];
  send_offsets = 0 ∷ 2 ∷ 3 ∷ [];
  recv_offsets = 0 ∷ 1 ∷ 2 ∷ [];
  compression_options = [];
  explicit_copy_to_current_rank = true;
}

abbrev tables : ℕ → List (Leaf ℕ)
tables k = allocate_communicated_table one_byte 9 (pairs k) (objects k)

counted :
    (objects 2).recv_offsets
    ≡ offsets_of 0 (counts_for fifo pairs (λ k. (objects k).send_offsets) 2 fit_together)
unfolding partial_sum size get_local_idx
counted = refl

rows_fit :
    (i b : ℕ)
    → i < size (pairs 2)
    → b < 1
    → get_or (objects (get_global_rank (pairs 2) i)).send_offsets (get_local_idx (pairs 2)) 0
          * one_byte
              (get_or
                (objects (get_global_rank (pairs 2) i)).input_table
                b
                (record { dtype = TypeId.int8; items = [] })).dtype
        + diffs (objects (get_global_rank (pairs 2) i)).send_offsets (get_local_idx (pairs 2))
          * one_byte
              (get_or
                (objects (get_global_rank (pairs 2) i)).input_table
                b
                (record { dtype = TypeId.int8; items = [] })).dtype
      ≤ length
          (get_or
            (objects (get_global_rank (pairs 2) i)).input_table
            b
            (record { dtype = TypeId.int8; items = [] })).items
unfolding get_local_idx
rows_fit i zero h q = omega arith
rows_fit i (suc b) h q = absurd (omega arith)

same_types :
    (k b : ℕ)
    → b < 1
    → (get_or (objects k).input_table b (record { dtype = TypeId.int8; items = [] })).dtype
      ≡ (get_or (objects 2).input_table b (record { dtype = TypeId.int8; items = [] })).dtype
same_types k zero h = refl
same_types k (suc b) h = absurd (omega arith)

launch_communication_example :
    launch_communication one_byte 9 identity_codec fifo fifo pairs true objects tables 2
    ≡ some (
        map
          (λ b. record {
            dtype =
                (get_or
                  (objects 2).input_table
                  b
                  (record { dtype = TypeId.int8; items = [] })).dtype;
            items =
                flat_map
                  (rows_from identity_codec one_byte 9 fifo fifo pairs true 2 fit_together objects
                    tables 1
                    (λ k. refl)
                    (λ k i. refl)
                    b)
                  (range 0 (size (pairs 2)));
          })
          (range 0 1))
launch_communication_example =
    launch_communication_lem identity_codec one_byte 9 fifo fifo pairs true 2 fit_together objects
      tables 1 (λ k. refl) (λ k i. refl) counted refl refl same_types rows_fit
