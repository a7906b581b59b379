-- ===== src/Tests/Join.antt =====
-- Four ranks in two NVLink groups join two tables of numbers.
use distributed_join.Prelude.{
  ℕ, zero, suc, ◌+◌, ◌*◌, ◌<◌, ◌≤◌, ◌≡◌, refl, arith, none, some, List, [], ◌∷◌, map, inr, ◌==◌,
  ==_iff, true, ap,
}
use distributed_join.Prelude.Ranges.{range, flat_map}
use distributed_join.Prelude.Perms.{keep}
use distributed_join.Nvlink.{get_nvl_partition_size, partition_size_from, ceil_sqrt, ceil_sqrt_from}
use distributed_join.Nvlink.Divisors.{
  IsFit, get_nvl_partition_size-IsFit, get_nvl_partition_size-largest,
  get_nvl_partition_size-missed,
}
use distributed_join.Group.{size, get_local_idx, get_global_rank, communication_group}
use distributed_join.Group.Collective.{made-IsCollective}
use distributed_join.Shuffle.{shuffle_on}
use distributed_join.Shuffle.Rows.{members_rows, shuffle_on_lem}
use distributed_join.Join.{
  Joined, join, local_join_helper, local_results, distributed_inner_join, shuffle_ib, join_batches,
  groups_of, batch_rows,
}
use distributed_join.Join.World.{rows_of}
use distributed_join.Join.Whole.{whole}
use distributed_join.Join.Merge.{local_joins, distributed_inner_join_lem, mixed_batches}
use distributed_join.Tests.{pairs, pairs_made}
use distributed_join.Tests.Bins.{by_remainder, gathering, equi_join}
use mathlib.Core.List.{Perm}

sixteen_of_8 : get_nvl_partition_size 16 8 ≡ 4
unfolding get_nvl_partition_size partition_size_from ceil_sqrt ceil_sqrt_from
sixteen_of_8 = refl

root_of_16 : ceil_sqrt 16 ≡ 4
unfolding ceil_sqrt ceil_sqrt_from
root_of_16 = refl

get_nvl_partition_size-IsFit_example : IsFit 16 8 (get_nvl_partition_size 16 8)
get_nvl_partition_size-IsFit_example = get_nvl_partition_size-IsFit 16 8 (omega arith) (omega arith)

get_nvl_partition_size-largest_example : 4 ≤ get_nvl_partition_size 16 8
get_nvl_partition_size-largest_example =
    get_nvl_partition_size-largest 16 8 4 (omega arith) (omega arith, refl, omega arith)
      (omega (arith, root_of_16))

-- 8 divides 16, and fits in the domain.
get_nvl_partition_size-missed_example : get_nvl_partition_size 16 8 < 8
get_nvl_partition_size-missed_example =
    get_nvl_partition_size-missed 16 8 8 (omega arith) (omega arith, refl, omega arith)
      (omega (arith, root_of_16)) (omega arith)

abbrev left_rows : ℕ → List ℕ
left_rows k = k ∷ (k + 1) ∷ (k + 4) ∷ []

abbrev right_rows : ℕ → List ℕ
right_rows k = (2 * k) ∷ (2 * k + 1) ∷ []

shuffle_on_example :
    (rows : List ℕ) × (shuffle_on by_remainder gathering 5 pairs left_rows 2 ≡ some rows)
    × Perm rows (
        keep
          (λ row. by_remainder.bin 5 (size (pairs 2)) row == get_local_idx (pairs 2))
          (members_rows gathering pairs 2
            (made-IsCollective pairs 4 2 2 (omega arith) (omega arith) pairs_made)
            left_rows))
shuffle_on_example =
    shuffle_on_lem gathering pairs 2
      (made-IsCollective pairs 4 2 2 (omega arith) (omega arith) pairs_made) by_remainder 5
      left_rows

same_bin :
    (seed n l r : ℕ)
    → equi_join.matches l r ≡ true
    → by_remainder.bin seed n l ≡ by_remainder.bin seed n r
same_bin seed n l r e = ap (by_remainder.bin seed n) ((==_iff l r).0 e)

local_joins_example :
    (results : List (List (Joined ℕ ℕ))) × (local_results equi_join by_remainder by_remainder
        gathering gathering 4
        (get_nvl_partition_size 4 2)
        2
        left_rows
        right_rows
      ≡ some results)
    × Perm (rows_of results) (join equi_join.matches (whole 4 left_rows) (whole 4 right_rows))
local_joins_example =
    local_joins equi_join by_remainder by_remainder gathering gathering same_bin 4 2 2 (omega arith)
      (omega arith) (omega arith) left_rows right_rows

mixed_batches_example :
    equi_join.concatenate (
      map
        (λ b.
          local_join_helper equi_join
            ((λ (b : ℕ). 1 ∷ []) b)
            (elim b [ zero ↦ [] | suc k ↦ 1 ∷ [] ]))
        (range 0 2))
    ≡ none
mixed_batches_example =
    mixed_batches equi_join (λ b. 1 ∷ []) (λ b. elim b [ zero ↦ [] | suc k ↦ 1 ∷ [] ]) 2 0 1
      (omega arith) (omega arith) (inr refl) (omega arith) (omega arith)

-- Two ranks in one NVLink group: rank 0 joins the even numbers, rank 1 the odd ones.
abbrev of_two : List (List (Joined ℕ ℕ))
of_two =
    (record { num_columns = 2; rows = (0, 0) ∷ (2, 2) ∷ [] } ∷ [])
    ∷ (record { num_columns = 2; rows = (1, 1) ∷ (1, 1) ∷ [] } ∷ [])
    ∷ []

of_two_results :
    local_results equi_join by_remainder by_remainder gathering gathering 2
      (get_nvl_partition_size 2 2)
      1
      left_rows
      right_rows
    ≡ some of_two
unfolding local_results local_join_helper get_nvl_partition_size shuffle_ib join_batches groups_of
    communication_group batch_rows size get_local_idx get_global_rank
of_two_results = refl

distributed_inner_join_example :
    (tables : List (Joined ℕ ℕ)) × (distributed_inner_join equi_join by_remainder by_remainder
        gathering gathering 2 2 1 left_rows right_rows
      ≡ some tables)
    × Perm
        (flat_map (λ j. j.rows) tables)
        (join equi_join.matches (whole 2 left_rows) (whole 2 right_rows))
distributed_inner_join_example =
    distributed_inner_join_lem equi_join by_remainder by_remainder gathering gathering same_bin 2 2
      1 (omega arith) (omega arith) (omega arith) left_rows right_rows of_two of_two_results
      (inr ((refl, tt), ((refl, tt), tt)))
