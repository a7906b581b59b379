-- ===== src/Join.antt =====
-- distributed_join.cpp: `distributed_inner_join`.
pub mod Threads
pub mod Bins
pub mod Ranks
pub mod World
pub mod Whole
pub mod Merge
use distributed_join.Prelude.{
  ℕ, zero, suc, ◌+◌, ◌*◌, ◌<◌, ◌≤◌, ◌≡◌, ◌≢◌, Bool, true, false, not, ◌&&◌, Option, none, some,
  List, [], ◌∷◌, ◌++◌, map, length, get_or, ◌==◌, if◌then◌else◌, take, drop, ◌>>=◌,
}
use distributed_join.Prelude.Ranges.{range, flat_map, each}
use distributed_join.Group.{CommunicationGroup, communication_group, get_global_rank}
use distributed_join.Nvlink.{get_nvl_partition_size}
use distributed_join.Shuffle.{HashPartition, Exchange, shuffle_on}
use mathlib.Core.List.{Perm}

-- The result of a local join.
pub record Joined (L R : Type 0) : Type 0 where
  pub num_columns : ℕ
  pub rows : List (L × R)

-- The inner join, by its definition: the pairs of rows whose keys match.
abbrev pub join : {L R : Type 0} → (L → R → Bool) → List L → List R → List (L × R)
join matches left right =
    flat_map (λ l. flat_map (λ r. if matches l r then (l, r) ∷ [] else []) right) left

abbrev pub HaveColumns : {L R : Type 0} → ℕ → List (Joined L R) → Type 0
HaveColumns n [] = Unit {0}
HaveColumns n (j ∷ js) = (j.num_columns ≡ n) × HaveColumns n js

-- cudf: `inner_join`, whose rows come in any order, and `concatenate`, which takes tables with the
-- same number of columns. Nothing is known of `inner_join` where a table is empty.
pub record Cudf (L R : Type 0) : Type 0 where
  pub matches : L → R → Bool
  pub inner_join : List L → List R → Joined L R
  pub columns : ℕ
  pub has_columns : 0 < columns
  pub joins :
      (left : List L) (right : List R)
      → 0 < length left
      → 0 < length right
      → Perm (inner_join left right).rows (join matches left right)
  pub same_columns :
      (left : List L) (right : List R)
      → 0 < length left
      → 0 < length right
      → (inner_join left right).num_columns ≡ columns
  pub concatenate : List (Joined L R) → Option (Joined L R)
  pub concatenates :
      (n : ℕ) (j : Joined L R) (js : List (Joined L R))
      → HaveColumns n (j ∷ js)
      → concatenate (j ∷ js)
        ≡ some (record { num_columns = n; rows = flat_map (λ j. j.rows) (j ∷ js) })
  pub refuses :
      (f : ℕ → Joined L R) (k i j : ℕ)
      → i < k
      → j < k
      → (f i).num_columns ≢ (f j).num_columns
      → concatenate (map f (range 0 k)) ≡ none

abbrev pub hash_partition_seed_ib : ℕ
hash_partition_seed_ib = 87654321

abbrev pub hash_partition_seed : ℕ
hash_partition_seed = 12345678

-- A step that every rank makes.
abbrev pub on_ranks : {B : Type 0} → ℕ → B → (ℕ → Option B) → Option (ℕ → B)
on_ranks mpi_size default step =
    each step (range 0 mpi_size) >>= λ made. some (λ r. get_or made r default)

-- The groups that the ranks construct. The assertion in the constructor does not depend on the
-- rank, so the one of rank 0 stands for all.
unfoldable pub groups_of : ℕ → ℕ → Option (ℕ → CommunicationGroup)
groups_of grid_size stride = do
  first ← communication_group 0 grid_size stride
  some (λ r. elim (communication_group r grid_size stride) [ some g ↦ g | none ↦ first ])

module _ {L R : Type 0} (cudf : Cudf L R) where
  -- Where one of the tables is empty the result has no rows, and no columns.
  unfoldable pub local_join_helper : List L → List R → Joined L R
  local_join_helper left right =
      if not (length left == 0) && not (length right == 0)
      then cudf.inner_join left right
      else record { num_columns = 0; rows = [] }

-- One batch of the all-to-all communication: what rank `r` receives of the tables of all ranks.
unfoldable pub batch_rows :
    {Row : Type 0}
    → HashPartition Row
    → Exchange Row
    → ℕ
    → ℕ
    → (ℕ → CommunicationGroup)
    → (ℕ → List Row)
    → ℕ
    → ℕ
    → Option (List Row)
batch_rows h x nvlink_partition_size over_decom_factor groups input ibatch r =
    let hashed = λ (k : ℕ).
      h.hash_partition hash_partition_seed (nvlink_partition_size * over_decom_factor) (input k) in
    let offset = λ (k : ℕ). (hashed k).1 ++ length (input k) ∷ [] in
    x.all_to_all groups (λ k. (hashed k).0)
      (λ k. take (nvlink_partition_size + 1) (drop (ibatch * nvlink_partition_size) (offset k))) r

module _ {L R : Type 0} (cudf : Cudf L R) (hash_left : HashPartition L)
    (hash_right : HashPartition R) (exchange_left : Exchange L) (exchange_right : Exchange R) where
  -- The shuffle in the Infiniband domain, on all ranks.
  unfoldable pub shuffle_ib :
      ℕ → ℕ → (ℕ → List L) → (ℕ → List R) → Option ((ℕ → List L) × (ℕ → List R))
  shuffle_ib mpi_size nvlink_partition_size left right =
      if nvlink_partition_size == mpi_size then some (left, right) else do
        groups ← groups_of mpi_size nvlink_partition_size
        shuffled_left ←
            on_ranks mpi_size []
              (shuffle_on hash_left exchange_left hash_partition_seed_ib groups left)
        shuffled_right ←
            on_ranks mpi_size []
              (shuffle_on hash_right exchange_right hash_partition_seed_ib groups right)
        some (shuffled_left, shuffled_right)

  -- `batch_join_results` of each rank, from the tables after the shuffle.
  unfoldable pub join_batches :
      ℕ → ℕ → ℕ → (ℕ → List L) → (ℕ → List R) → Option (List (List (Joined L R)))
  join_batches mpi_size nvlink_partition_size over_decom_factor left right = do
    groups ← groups_of nvlink_partition_size 1
    each
        (λ r.
          each
            (λ ibatch. do
              communicated_left ←
                  batch_rows hash_left exchange_left nvlink_partition_size over_decom_factor groups
                    left ibatch r
              communicated_right ←
                  batch_rows hash_right exchange_right nvlink_partition_size over_decom_factor
                    groups right ibatch r
              some (local_join_helper cudf communicated_left communicated_right))
            (range 0 over_decom_factor))
        (range 0 mpi_size)

  -- What each rank joins locally, one result or one for each batch.
  unfoldable pub local_results :
      ℕ → ℕ → ℕ → (ℕ → List L) → (ℕ → List R) → Option (List (List (Joined L R)))
  local_results mpi_size nvlink_partition_size over_decom_factor left right = do
    shuffled ← shuffle_ib mpi_size nvlink_partition_size left right
    if nvlink_partition_size == 1
        then some (
            map (λ r. local_join_helper cudf (shuffled.0 r) (shuffled.1 r) ∷ []) (range 0 mpi_size))
        else join_batches mpi_size nvlink_partition_size over_decom_factor shuffled.0 shuffled.1

  -- `distributed_inner_join` on all ranks, given their tables.
  unfoldable pub distributed_inner_join :
      ℕ → ℕ → ℕ → (ℕ → List L) → (ℕ → List R) → Option (List (Joined L R))
  distributed_inner_join mpi_size nvlink_domain_size over_decom_factor left right = do
    let nvlink_partition_size = get_nvl_partition_size mpi_size nvlink_domain_size
    results ← local_results mpi_size nvlink_partition_size over_decom_factor left right
    if nvlink_partition_size == 1
        then some (flat_map (λ batches. batches) results)
        else each cudf.concatenate results
