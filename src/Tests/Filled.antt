-- ===== src/Tests/Filled.antt =====
-- Rank 2 receives the rows of the members of its group, and two ranks join what they have sent one
-- another.
use distributed_join.Prelude.{
  ℕ, zero, suc, ◌+◌, ◌<◌, ◌≡◌, refl, arith, true, some, List, [], ◌∷◌, ◌≤◌, get_or,
}
use distributed_join.Group.{size, get_global_rank, get_local_idx}
use distributed_join.Group.Collective.{IsCollective, made-IsCollective}
use distributed_join.Compression.{ColumnOptions, CompressionMethod, method, default_options}
use distributed_join.Shuffle.{Splits}
use distributed_join.Shuffle.Filled.{communicate_table, communicate_table_lem}
use distributed_join.Tests.{fifo, pairs, pairs_made, identity_codec}

abbrev fit_together : IsCollective pairs 2
fit_together = made-IsCollective pairs 4 2 2 (omega arith) (omega arith) pairs_made

abbrev rows : ℕ → List ℕ
rows k = k ∷ (k + 10) ∷ (k + 20) ∷ []

abbrev offsets : ℕ → List ℕ
offsets k = 0 ∷ 2 ∷ 3 ∷ []

two_members : size (pairs 2) ≡ 2
unfolding size
two_members = refl

split :
    (i : ℕ)
    → i < size (pairs 2)
    → Splits
        (size (pairs 2))
        (rows (get_global_rank (pairs 2) i))
        (offsets (get_global_rank (pairs 2) i))
unfolding size
split i h = record { climbs = climbs; ends = omega arith }
  where
    climbs : (j : ℕ) → j < 2 → get_or (offsets 0) j 0 ≤ get_or (offsets 0) (j + 1) 0
    climbs zero h = omega arith
    climbs (suc zero) h = omega arith
    climbs (suc (suc j)) h = absurd (omega arith)

-- The one column is not compressed.
abbrev plain_options : List ColumnOptions
plain_options = default_options ∷ []

never_compressed :
    (k i : ℕ) → method (get_or plain_options i default_options) ≡ CompressionMethod.none
never_compressed k zero = refl
never_compressed k (suc i) = refl

-- The rows behind offset 2 of ranks 0 and 2.
communicate_table_example :
    communicate_table identity_codec 9 fifo fifo true (λ k. plain_options) pairs rows offsets 2
    ≡ some (20 ∷ 22 ∷ [])
unfolding size get_local_idx get_global_rank
communicate_table_example =
    communicate_table_lem identity_codec 9 fifo fifo true (λ k. plain_options) pairs rows offsets 2
      fit_together never_compressed split
