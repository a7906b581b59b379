-- ===== src/Join/World.antt =====
-- What all ranks together join: the inner join of the whole tables.
use distributed_join.Prelude.{
  ℕ, suc, ◌+◌, ◌*◌, ◌<◌, ◌≡◌, refl, sym, ap, ap₂, ◌∙◌, subst, arith, true, false, not, ◌&&◌, some,
  List, [], ◌∷◌, ◌++◌, map, length, ◌==◌, if_true, if_false, ◌>>=◌,
}
use distributed_join.Prelude.Ranges.{range, flat_map, each, each-range, flat_map-range_ext}
use distributed_join.Prelude.Perms.{
  flat_map-range-Perm, flat_map-range_mul, flat_map_swap-Perm, same-Perm, flat_map-Perm,
}
use distributed_join.Shuffle.{HashPartition, Exchange}
use distributed_join.Join.{
  Joined, join, Cudf, local_join_helper, batch_rows, join_batches, hash_partition_seed,
}
use distributed_join.Join.Bins.{join-Perm, join_bins, join_empty}
use distributed_join.Join.Ranks.{
  groups_of_lem, held_by, of_bin, batch_rows_lem, arrived, arrived_lem, batch_arrived,
}
use distributed_join.Group.{CommunicationGroup, communication_group}
use mathlib.Core.List.{Perm}
use mathlib.Core.List as List

abbrev pub rows_of : {L R : Type 0} → List (List (Joined L R)) → List (L × R)
rows_of results = flat_map (λ batches. flat_map (λ j. j.rows) batches) results

pub flat_map-map :
    {A B C : Type 0} (f : B → List C) (g : A → B) (xs : List A)
    → flat_map f (map g xs) ≡ flat_map (λ x. f (g x)) xs
flat_map-map f g [] = refl
flat_map-map f g (x ∷ xs) = ap (λ v. f (g x) ++ v) (flat_map-map f g xs)

module _ {L R : Type 0} (cudf : Cudf L R) where
  -- The local join has the rows of the inner join, also where a table is empty.
  pub local_join_helper_lem :
      (left : List L) (right : List R)
      → Perm (local_join_helper cudf left right).rows (join cudf.matches left right)
  unfolding local_join_helper
  local_join_helper_lem [] right = List.Perm.refl []
  local_join_helper_lem (l ∷ left) [] =
      subst (λ (j : Joined L R). Perm j.rows (join cudf.matches (l ∷ left) []))
        (sym (if_false {b = not (suc (length left) == 0) && false} _ _ (ground arith)))
        (same-Perm (sym (join_empty cudf.matches (l ∷ left))))
  local_join_helper_lem (l ∷ left) (r ∷ right) =
      subst (λ (j : Joined L R). Perm j.rows (join cudf.matches (l ∷ left) (r ∷ right)))
        (sym (
          if_true {b = not (suc (length left) == 0) && not (suc (length right) == 0)} _ _
            (ground arith)))
        (cudf.joins (l ∷ left) (r ∷ right) (omega arith) (omega arith))

  module _ (hash_left : HashPartition L) (hash_right : HashPartition R) (exchange_left : Exchange L)
      (exchange_right : Exchange R)
      (same_bin : (seed n : ℕ) (l : L) (r : R)
        → cudf.matches l r ≡ true
        → hash_left.bin seed n l ≡ hash_right.bin seed n r)
      (m nps over_decom_factor : ℕ) (some_groups : 0 < m) (some_ranks : 0 < nps)
      (some_batches : 0 < over_decom_factor) where
    module _ (groups : ℕ → CommunicationGroup)
        (made : (k : ℕ) → communication_group k nps 1 ≡ some (groups k)) (left : ℕ → List L)
        (right : ℕ → List R) where
      abbrev got_left : ℕ → ℕ → List L
      got_left r b =
          arrived (batch_rows hash_left exchange_left nps over_decom_factor groups left b r)

      abbrev got_right : ℕ → ℕ → List R
      got_right r b =
          arrived (batch_rows hash_right exchange_right nps over_decom_factor groups right b r)

      -- The result of batch `b` on rank `r`.
      abbrev result : ℕ → ℕ → Joined L R
      result r b = local_join_helper cudf (got_left r b) (got_right r b)

      abbrev results : ℕ → List (Joined L R)
      results r = map (result r) (range 0 over_decom_factor)

      batches_made :
          each
            (λ r.
              each
                (λ ibatch.
                  batch_rows hash_left exchange_left nps over_decom_factor groups left ibatch r
                  >>= λ l.
                      batch_rows hash_right exchange_right nps over_decom_factor groups right ibatch
                        r
                      >>= λ r. some (local_join_helper cudf l r))
                (range 0 over_decom_factor))
            (range 0 (m * nps))
          ≡ some (map results (range 0 (m * nps)))
      batches_made = each-range _ results 0 (m * nps) (λ r _ p.
          each-range _ (result r) 0 over_decom_factor (λ b _ q.
            ap₂ (λ o o'. o >>= λ l. o' >>= λ r. some (local_join_helper cudf l r))
              (batch_arrived m nps some_groups some_ranks hash_left exchange_left groups made left
                over_decom_factor b r (omega arith)).0
              (batch_arrived m nps some_groups some_ranks hash_right exchange_right groups made
                right over_decom_factor b r (omega arith)).0))

      results_by_rank :
          rows_of (map results (range 0 (m * nps)))
          ≡ flat_map
              (λ r. flat_map (λ b. (result r b).rows) (range 0 over_decom_factor))
              (range 0 (m * nps))
      results_by_rank =
          flat_map-map (flat_map (λ j. j.rows)) results (range 0 (m * nps))
          ∙ flat_map-range_ext _ _ 0 (m * nps)
              (λ r _ _. flat_map-map (λ j. j.rows) (result r) (range 0 over_decom_factor))

      module _ (whole_left : ℕ → List L) (whole_right : ℕ → List R)
          (held : (q : ℕ)
            → q < m
            → Perm
                (held_by m nps some_groups some_ranks hash_left exchange_left left q)
                (whole_left q)
              × Perm
                  (held_by m nps some_groups some_ranks hash_right exchange_right right q)
                  (whole_right q)) where
        -- The pairs of group `q` in bin `i`.
        abbrev pairs_in : ℕ → ℕ → List (L × R)
        pairs_in q i =
            join cudf.matches
              (of_bin m nps some_groups some_ranks hash_left exchange_left over_decom_factor i
                (whole_left q))
              (of_bin m nps some_groups some_ranks hash_right exchange_right over_decom_factor i
                (whole_right q))

        result_rows :
            (q j b : ℕ)
            → q < m
            → j < nps
            → b < over_decom_factor
            → Perm (result (q * nps + j) b).rows (pairs_in q (b * nps + j))
        result_rows q j b p r h =
            List.Perm.trans
              (local_join_helper_lem (got_left (q * nps + j) b) (got_right (q * nps + j) b))
              (join-Perm cudf.matches _ _ _ _
                (List.Perm.trans
                  (arrived_lem _ _ (
                    batch_rows_lem m nps some_groups some_ranks hash_left exchange_left groups made
                      left over_decom_factor b q j h r)).1
                  (flat_map-Perm _ _ _ (held q p).0))
                (List.Perm.trans
                  (arrived_lem _ _ (
                    batch_rows_lem m nps some_groups some_ranks hash_right exchange_right groups
                      made right over_decom_factor b q j h r)).1
                  (flat_map-Perm _ _ _ (held q p).1)))

        group_rows :
            (q : ℕ)
            → Perm
                (flat_map
                  (λ j. flat_map (λ b. pairs_in q (b * nps + j)) (range 0 over_decom_factor))
                  (range 0 nps))
                (join cudf.matches (whole_left q) (whole_right q))
        group_rows q =
            List.Perm.trans
              (flat_map_swap-Perm (λ j b. pairs_in q (b * nps + j)) (range 0 nps)
                (range 0 over_decom_factor))
              (List.Perm.trans
                (same-Perm (
                  sym (
                    ap₂ (λ b n. flat_map (pairs_in q) (range b n)) {x = 0} {y = 0 * nps}
                      (omega arith) (omega arith)
                    ∙ flat_map-range_mul (pairs_in q) nps over_decom_factor 0)))
                (join_bins cudf.matches (nps * over_decom_factor)
                  (hash_left.bin hash_partition_seed (nps * over_decom_factor))
                  (hash_right.bin hash_partition_seed (nps * over_decom_factor))
                  (λ l.
                    hash_left.in_range hash_partition_seed (nps * over_decom_factor) l
                      (grind arith))
                  (same_bin hash_partition_seed (nps * over_decom_factor)) (whole_left q)
                  (whole_right q)))

        all_rows :
            Perm
              (rows_of (map results (range 0 (m * nps))))
              (flat_map (λ q. join cudf.matches (whole_left q) (whole_right q)) (range 0 m))
        all_rows =
            List.Perm.trans
              (same-Perm (
                results_by_rank
                ∙ ap
                    (λ b.
                      flat_map (λ r. flat_map (λ b. (result r b).rows) (range 0 over_decom_factor))
                        (range b (m * nps)))
                    {x = 0} {y = 0 * nps} (omega arith)
                ∙ flat_map-range_mul
                    (λ r. flat_map (λ b. (result r b).rows) (range 0 over_decom_factor)) nps m 0))
              (flat_map-range-Perm _ _ 0 m (λ q _ p.
                List.Perm.trans
                  (flat_map-range-Perm _ _ 0 nps (λ j _ r.
                    flat_map-range-Perm _ _ 0 over_decom_factor
                      (λ b _ h. result_rows q j b (omega arith) (omega arith) (omega arith))))
                  (group_rows q)))

    -- The batches of all ranks have the pairs of what the groups hold.
    pub join_batches_lem :
        (left : ℕ → List L) (right : ℕ → List R) (whole_left : ℕ → List L)
        (whole_right : ℕ → List R)
        → ((q : ℕ)
            → q < m
            → Perm
                (held_by m nps some_groups some_ranks hash_left exchange_left left q)
                (whole_left q)
              × Perm
                  (held_by m nps some_groups some_ranks hash_right exchange_right right q)
                  (whole_right q))
        → (results : List (List (Joined L R))) × (join_batches cudf hash_left hash_right
              exchange_left exchange_right
              (m * nps)
              nps
              over_decom_factor
              left
              right
            ≡ some results)
          × Perm
              (rows_of results)
              (flat_map (λ q. join cudf.matches (whole_left q) (whole_right q)) (range 0 m))
    unfolding join_batches
    join_batches_lem left right whole_left whole_right held =
        let (groups, e, made) = groups_of_lem nps 1 (omega arith) in
        (
          map (results groups made left right) (range 0 (m * nps)),
          ap
                (λ o. o >>= λ (groups : ℕ → CommunicationGroup).
                  each
                    (λ r.
                      each
                        (λ ibatch.
                          batch_rows hash_left exchange_left nps over_decom_factor groups left
                            ibatch r
                          >>= λ l.
                              batch_rows hash_right exchange_right nps over_decom_factor groups
                                right ibatch r
                              >>= λ r. some (local_join_helper cudf l r))
                        (range 0 over_decom_factor))
                    (range 0 (m * nps)))
                e
              ∙ batches_made groups made left right,
          all_rows groups made left right whole_left whole_right held,
        )
