-- ===== src/Join/Merge.antt =====
-- The end of `distributed_inner_join`: the results of the batches are concatenated.
use distributed_join.Prelude.{
  ℕ, ◌*◌, ◌/◌, ◌%◌, ◌<◌, ◌≤◌, ◌≡◌, refl, sym, ap, ap₂, ◌∙◌, subst, arith, true, false, not, ◌&&◌,
  Option, none, some, List, [], ◌∷◌, ◌++◌, map, length, ◌⊎◌, ◌==◌, if◌then◌else◌, some_inj, if_true,
  if_false, inl, inr, Bool-cases, ◌>>=◌,
}
use distributed_join.Prelude.Ranges.{range, flat_map, each}
use distributed_join.Prelude.Perms.{flat_map_nested, same-Perm}
use distributed_join.Nvlink.{get_nvl_partition_size}
use distributed_join.Nvlink.Divisors.{get_nvl_partition_size-IsFit}
use distributed_join.Shuffle.{HashPartition, Exchange}
use distributed_join.Join.{
  Joined, join, Cudf, HaveColumns, local_join_helper, local_results, distributed_inner_join,
}
use distributed_join.Join.World.{rows_of}
use distributed_join.Join.Whole.{whole, local_results_lem}
use mathlib.Core.List.{Perm}
use mathlib.Core.List as List

groups_split : (p n : ℕ) → 0 < p → 0 < n → p % n ≡ 0 → (p / n * n ≡ p) × (0 < p / n)
groups_split p n h k e = (grind arith, grind arith)

-- The results of the ranks one after the other.
rows_joined :
    {L R : Type 0} (results : List (List (Joined L R)))
    → flat_map (λ j. j.rows) (flat_map (λ batches. batches) results) ≡ rows_of results
rows_joined results = flat_map_nested (λ j. j.rows) (λ batches. batches) results

module _ {L R : Type 0} (cudf : Cudf L R) where
  -- Every rank has batches, and each of them has the columns of the join.
  abbrev pub AreFull : List (List (Joined L R)) → Type 0
  AreFull [] = Unit {0}
  AreFull ([] ∷ results) = ⊥
  AreFull ((j ∷ js) ∷ results) = HaveColumns cudf.columns (j ∷ js) × AreFull results

  -- The tables that the ranks return.
  abbrev pub merged : List (List (Joined L R)) → List (Joined L R)
  merged results =
      map (λ batches. record { num_columns = cudf.columns; rows = flat_map (λ j. j.rows) batches })
        results

  concatenated :
      (results : List (List (Joined L R)))
      → AreFull results
      → each cudf.concatenate results ≡ some (merged results)
  concatenated [] h = refl
  concatenated ([] ∷ results) h = absurd h
  concatenated ((j ∷ js) ∷ results) h =
      ap₂ (λ o o'. o >>= λ y. o' >>= λ ys. some (y ∷ ys)) (cudf.concatenates cudf.columns j js h.0)
        (concatenated results h.1)

  merged_rows :
      (results : List (List (Joined L R)))
      → flat_map (λ j. j.rows) (merged results) ≡ rows_of results
  merged_rows [] = refl
  merged_rows (batches ∷ results) =
      ap (λ v. flat_map (λ j. j.rows) batches ++ v) (merged_rows results)

  empty_columns :
      (left : List L) (right : List R)
      → (length left ≡ 0) ⊎ (length right ≡ 0)
      → (local_join_helper cudf left right).num_columns ≡ 0
  unfolding local_join_helper
  empty_columns left right one_empty =
      ap (λ (j : Joined L R). j.num_columns)
        (if_false {b = not (length left == 0) && not (length right == 0)} _ _ (ground arith))

  full_columns :
      (left : List L) (right : List R)
      → 0 < length left
      → 0 < length right
      → (local_join_helper cudf left right).num_columns ≡ cudf.columns
  unfolding local_join_helper
  full_columns left right p q =
      ap (λ (j : Joined L R). j.num_columns)
        (if_true {b = not (length left == 0) && not (length right == 0)} _ _ (ground arith))
      ∙ cudf.same_columns left right p q

  -- A rank one of whose batches has an empty table, and another one has not, fails at the end: the
  -- empty result has no columns.
  pub mixed_batches :
      (left : ℕ → List L) (right : ℕ → List R) (over_decom_factor i j : ℕ)
      → i < over_decom_factor
      → j < over_decom_factor
      → (length (left i) ≡ 0) ⊎ (length (right i) ≡ 0)
      → 0 < length (left j)
      → 0 < length (right j)
      → cudf.concatenate
          (map (λ b. local_join_helper cudf (left b) (right b)) (range 0 over_decom_factor))
        ≡ none
  mixed_batches left right over_decom_factor i j p q one_empty some_left some_right =
      cudf.refuses (λ b. local_join_helper cudf (left b) (right b)) over_decom_factor i j p q
        (λ e. omega (
          arith,
          e,
          empty_columns (left i) (right i) one_empty,
          full_columns (left j) (right j) some_left some_right,
          cudf.has_columns,
        ))

  module _ (hash_left : HashPartition L) (hash_right : HashPartition R) (exchange_left : Exchange L)
      (exchange_right : Exchange R)
      (same_bin : (seed n : ℕ) (l : L) (r : R)
        → cudf.matches l r ≡ true
        → hash_left.bin seed n l ≡ hash_right.bin seed n r)
      (mpi_size nvlink_domain_size over_decom_factor : ℕ) (some_ranks : 0 < mpi_size)
      (some_domain : 0 < nvlink_domain_size) (some_batches : 0 < over_decom_factor)
      (left : ℕ → List L) (right : ℕ → List R) where
    abbrev pub partition_size : ℕ
    partition_size = get_nvl_partition_size mpi_size nvlink_domain_size

    -- If the hash agrees with the key comparison, and there are ranks, batches and a positive domain
    -- size, then the shuffle, the batches and the local joins of all ranks succeed, and their rows
    -- together are those of the inner join of the whole tables, each as often as there.
    pub local_joins :
        (results : List (List (Joined L R))) × (local_results cudf hash_left hash_right
            exchange_left exchange_right mpi_size partition_size over_decom_factor left right
          ≡ some results)
        × Perm (rows_of results) (join cudf.matches (whole mpi_size left) (whole mpi_size right))
    local_joins =
        subst
          (λ p.
            (results : List (List (Joined L R))) × (local_results cudf hash_left hash_right
                exchange_left exchange_right p partition_size over_decom_factor left right
              ≡ some results)
            × Perm (rows_of results) (join cudf.matches (whole p left) (whole p right)))
          {x = mpi_size / partition_size * partition_size} {y = mpi_size} split.0
          (local_results_lem cudf hash_left hash_right exchange_left exchange_right same_bin
            (mpi_size / partition_size) partition_size over_decom_factor split.1 fits.0 some_batches
            left right)
      where
        fits :
            (0 < partition_size)
            × (mpi_size % partition_size ≡ 0)
            × (partition_size ≤ nvlink_domain_size)
        fits = get_nvl_partition_size-IsFit mpi_size nvlink_domain_size some_ranks some_domain

        split :
            (mpi_size / partition_size * partition_size ≡ mpi_size)
            × (0 < mpi_size / partition_size)
        split = groups_split mpi_size partition_size some_ranks fits.0 fits.1

    -- If the hash agrees with the key comparison, there are ranks, batches and a positive domain size,
    -- and the NVLink groups have one rank or no batch of a rank has an empty table, then
    -- `distributed_inner_join` returns, and the rows of all ranks together are those of the inner
    -- join of the whole tables, each as often as there.
    pub distributed_inner_join_lem :
        (results : List (List (Joined L R)))
        → local_results cudf hash_left hash_right exchange_left exchange_right mpi_size
            partition_size over_decom_factor left right
          ≡ some results
        → (partition_size ≡ 1) ⊎ AreFull results
        → (tables : List (Joined L R)) × (distributed_inner_join cudf hash_left hash_right
              exchange_left exchange_right mpi_size nvlink_domain_size over_decom_factor left right
            ≡ some tables)
          × Perm
              (flat_map (λ j. j.rows) tables)
              (join cudf.matches (whole mpi_size left) (whole mpi_size right))
    unfolding distributed_inner_join
    distributed_inner_join_lem results made full = elim (Bool-cases (partition_size == 1)) [
      | inl single ↦ (
        flat_map (λ batches. batches) results,
        ap (λ o. o >>= finish) made ∙ if_true _ _ single,
        List.Perm.trans (same-Perm (rows_joined results)) all_rows,
      )
      | inr several ↦ (
        merged results,
        ap (λ o. o >>= finish) made
            ∙ if_false _ _ several
            ∙ concatenated results (several_full several full),
        List.Perm.trans (same-Perm (merged_rows results)) all_rows,
      )
    ]
      where
        finish : List (List (Joined L R)) → Option (List (Joined L R))
        finish results =
            if partition_size == 1
            then some (flat_map (λ batches. batches) results)
            else each cudf.concatenate results

        all_rows :
            Perm (rows_of results) (join cudf.matches (whole mpi_size left) (whole mpi_size right))
        all_rows =
            let (results', made', rows) = local_joins in
            List.Perm.trans (same-Perm (ap rows_of (some_inj results results' (sym made ∙ made'))))
              rows

        several_full :
            (partition_size == 1) ≡ false → (partition_size ≡ 1) ⊎ AreFull results → AreFull results
        several_full several (inl one) = absurd (ground arith)
        several_full several (inr full) = full
