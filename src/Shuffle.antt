-- ===== src/Shuffle.antt =====
-- shuffle_on.cpp: the rows of a table are partitioned by the hash of their key, and each partition
-- goes to one member of a group.
pub mod Filled
pub mod Rows
use distributed_join.Prelude.{
  ℕ, ◌+◌, ◌≤◌, ◌<◌, ◌≡◌, Bool, Option, some, List, [], ◌∷◌, ◌++◌, length, get_or, ◌==◌,
}
use distributed_join.Prelude.Ranges.{range, flat_map}
use distributed_join.Prelude.Perms.{keep}
use distributed_join.Prelude.Segments.{diffs}
use distributed_join.Prelude.Slices.{slice}
use distributed_join.Group.{CommunicationGroup, size, get_global_rank, get_local_idx}
use distributed_join.Group.Collective.{IsCollective}
use mathlib.Core.List.{Perm}

-- Rows between two offsets.
abbrev pub rows_at : {Row : Type 0} → List Row → List ℕ → ℕ → List Row
rows_at rows offsets i = slice rows (get_or offsets i 0) (diffs offsets i)

-- The offsets climb over `n` parts, and end in the table.
pub record Splits {Row : Type 0} (n : ℕ) (rows : List Row) (offsets : List ℕ) : Type 0 where
  pub climbs : (i : ℕ) → i < n → get_or offsets i 0 ≤ get_or offsets (i + 1) 0
  pub ends : get_or offsets n 0 ≤ length rows

-- `cudf::hash_partition`, given a seed and a number of partitions: the rows ordered by partition,
-- and where each partition starts. `bin` is the partition of a row.
pub record HashPartition (Row : Type 0) : Type 0 where
  pub bin : ℕ → ℕ → Row → ℕ
  pub hash_partition : ℕ → ℕ → List Row → List Row × List ℕ
  pub in_range : (seed n : ℕ) (row : Row) → 0 < n → bin seed n row < n
  pub all_rows :
      (seed n : ℕ) (rows : List Row) → length (hash_partition seed n rows).0 ≡ length rows
  pub splits :
      (seed n : ℕ) (rows : List Row)
      → let (hashed, offsets) = hash_partition seed n rows in
        Splits n hashed (offsets ++ length hashed ∷ [])
  pub parts :
      (seed n : ℕ) (rows : List Row) (i : ℕ)
      → i < n
      → let (hashed, offsets) = hash_partition seed n rows in
        Perm
          (rows_at hashed (offsets ++ length hashed ∷ []) i)
          (keep (λ row. bin seed n row == i) rows)

-- `AllToAllCommunicator`: given the tables and the offsets of all ranks, what a rank's table holds
-- after the communication.
pub record Exchange (Row : Type 0) : Type 0 where
  pub all_to_all : (ℕ → CommunicationGroup) → (ℕ → List Row) → (ℕ → List ℕ) → ℕ → Option (List Row)
  pub gathers :
      (groups : ℕ → CommunicationGroup) (tables : ℕ → List Row) (offsets : ℕ → List ℕ) (r : ℕ)
      → IsCollective groups r
      → ((i : ℕ)
          → i < size (groups r)
          → let k = get_global_rank (groups r) i in Splits (size (groups r)) (tables k) (offsets k))
      → all_to_all groups tables offsets r
        ≡ some (
            flat_map
              (λ i.
                let k = get_global_rank (groups r) i in
                rows_at (tables k) (offsets k) (get_local_idx (groups r)))
              (range 0 (size (groups r))))

module _ {Row : Type 0} (h : HashPartition Row) (x : Exchange Row) where
  -- `shuffle_on` on rank `r`, over the tables of all ranks.
  unfoldable pub shuffle_on : ℕ → (ℕ → CommunicationGroup) → (ℕ → List Row) → ℕ → Option (List Row)
  shuffle_on hash_seed groups input r =
      let hashed = λ (k : ℕ). (h.hash_partition hash_seed (size (groups k)) (input k)).0 in
      let offsets = λ (k : ℕ).
        (h.hash_partition hash_seed (size (groups k)) (input k)).1 ++ length (hashed k) ∷ [] in
      x.all_to_all groups hashed offsets r
