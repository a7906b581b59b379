-- ===== src/Join/Whole.antt =====
-- `distributed_inner_join` computes the inner join of the whole tables.
use distributed_join.Prelude.{
  ℕ, ◌+◌, ◌*◌, ◌<◌, ◌≤◌, ◌≡◌, sym, ap, ap₂, ◌∙◌, subst, arith, Bool, true, false, Option, some,
  List, [], ◌∷◌, append-nil, map, ◌==◌, if◌then◌else◌, if_true, if_false, inl, inr, Bool-cases,
  ◌>>=◌, ==_iff, dec_lt,
}
use distributed_join.Prelude.Ranges.{range, flat_map, flat_map-range_ext}
use distributed_join.Prelude.Slices.{mul_mono}
use distributed_join.Prelude.Perms.{flat_map-range-Perm, flat_map-range_mul, same-Perm}
use distributed_join.Shuffle.{HashPartition, Exchange, shuffle_on}
use distributed_join.Join.{
  Joined, join, Cudf, local_join_helper, shuffle_ib, join_batches, local_results, groups_of,
  on_ranks, hash_partition_seed_ib,
}
use distributed_join.Join.Bins.{join-Perm, join_bins}
use distributed_join.Join.Ranks.{groups_of_lem, held_by, of_group, shuffled_groups}
use distributed_join.Join.World.{rows_of, flat_map-map, local_join_helper_lem, join_batches_lem}
use distributed_join.Group.{CommunicationGroup, communication_group}
use mathlib.Core.List.{Perm}
use mathlib.Core.List as List

-- All rows of a table that is spread over `p` ranks.
abbrev pub whole : {Row : Type 0} → ℕ → (ℕ → List Row) → List Row
whole p table = flat_map table (range 0 p)

one_rank :
    {L R : Type 0} (matches : L → R → Bool) (f : ℕ → List L) (g : ℕ → List R) (n : ℕ)
    → n ≡ 1
    → Perm
        (flat_map (λ i. join matches (f i) (g i)) (range 0 n))
        (join matches (flat_map f (range 0 n)) (flat_map g (range 0 n)))
one_rank matches f g n e =
    subst
      (λ n.
        Perm (flat_map (λ i. join matches (f i) (g i)) (range 0 n))
          (join matches (flat_map f (range 0 n)) (flat_map g (range 0 n))))
      (sym e)
      (same-Perm (
        append-nil (join matches (f 0) (g 0))
        ∙ ap₂ (join matches) (sym (append-nil (f 0))) (sym (append-nil (g 0)))))

module _ {L R : Type 0} (cudf : Cudf L R) (hash_left : HashPartition L)
    (hash_right : HashPartition R) (exchange_left : Exchange L) (exchange_right : Exchange R)
    (same_bin : (seed n : ℕ) (l : L) (r : R)
      → cudf.matches l r ≡ true
      → hash_left.bin seed n l ≡ hash_right.bin seed n r)
    (m nps over_decom_factor : ℕ) (some_groups : 0 < m) (some_ranks : 0 < nps)
    (some_batches : 0 < over_decom_factor) (left : ℕ → List L) (right : ℕ → List R) where
  abbrev Held : (ℕ → List L) → (ℕ → List R) → (ℕ → List L) → (ℕ → List R) → Type 0
  Held left right whole_left whole_right =
      (q : ℕ)
      → q < m
      → Perm (held_by m nps some_groups some_ranks hash_left exchange_left left q) (whole_left q)
        × Perm (held_by m nps some_groups some_ranks hash_right exchange_right right q)
            (whole_right q)

  -- After the first shuffle the joins of what the groups hold make up the whole join.
  abbrev Shuffled : Type 0
  Shuffled =
      (shuffled_left : ℕ → List L) × (shuffled_right : ℕ → List R) × (shuffle_ib cudf hash_left
          hash_right exchange_left exchange_right (m * nps) nps left right
        ≡ some (shuffled_left, shuffled_right))
      × (whole_left : ℕ → List L) × (whole_right : ℕ → List R) × Held shuffled_left shuffled_right
          whole_left whole_right
      × Perm (flat_map (λ q. join cudf.matches (whole_left q) (whole_right q)) (range 0 m))
          (join cudf.matches (whole (m * nps) left) (whole (m * nps) right))

  -- With one group of all ranks there is one group.
  m_one : (nps == m * nps) ≡ true → m ≡ 1
  m_one alone =
      let e : nps ≡ m * nps = (==_iff nps (m * nps)).0 alone in
      elim (dec_lt 1 m) [
        | yes h ↦ let t : 2 * nps ≤ m * nps = mul_mono 2 m nps (omega arith) in absurd (omega arith)
        | no h ↦ omega arith
      ]

  held_alone :
      {Row : Type 0} (table : ℕ → List Row) (q : ℕ)
      → (nps == m * nps) ≡ true
      → q < m
      → flat_map (λ i. table (q * nps + i)) (range 0 nps) ≡ whole (m * nps) table
  held_alone table q alone h =
      ap (λ q. flat_map (λ i. table (q * nps + i)) (range 0 nps)) {x = q} {y = 0}
        (omega (arith, m_one alone))
      ∙ flat_map-range_ext _ table 0 nps (λ i _ _. ap table {x = 0 * nps + i} {y = i} (omega arith))
      ∙ ap (λ n. flat_map table (range 0 n)) ((==_iff nps (m * nps)).0 alone)

  one_group : (nps == m * nps) ≡ true → Shuffled
  unfolding shuffle_ib
  one_group alone = (
    left,
    right,
    if_true _ _ alone,
    (λ q. whole (m * nps) left),
    (λ q. whole (m * nps) right),
    (λ q h. (same-Perm (held_alone left q alone h), same-Perm (held_alone right q alone h))),
    same-Perm (
        ap
          (λ n.
            flat_map (λ q. join cudf.matches (whole (m * nps) left) (whole (m * nps) right))
              (range 0 n))
          (m_one alone)
        ∙ append-nil _),
  )

  many_groups_of :
      (groups : ℕ → CommunicationGroup)
      → groups_of (m * nps) nps ≡ some groups
      → ((k : ℕ) → communication_group k (m * nps) nps ≡ some (groups k))
      → (nps == m * nps) ≡ false
      → (l : ℕ → List L)
      → on_ranks
          (m * nps)
          []
          (shuffle_on hash_left exchange_left hash_partition_seed_ib groups left)
        ≡ some l
      → (r : ℕ → List R)
      → on_ranks
          (m * nps)
          []
          (shuffle_on hash_right exchange_right hash_partition_seed_ib groups right)
        ≡ some r
      → shuffle_ib cudf hash_left hash_right exchange_left exchange_right (m * nps) nps left right
        ≡ some (l, r)
  unfolding shuffle_ib
  many_groups_of groups e made more l el r er =
      if_false _ _ more
      ∙ ap
          (λ o. o >>= λ groups.
            on_ranks (m * nps) []
              (shuffle_on hash_left exchange_left hash_partition_seed_ib groups left)
            >>= λ l.
                on_ranks (m * nps) []
                  (shuffle_on hash_right exchange_right hash_partition_seed_ib groups right)
                >>= λ r. some (l, r))
          e
      ∙ ap₂ (λ o o'. o >>= λ l. o' >>= λ r. some (l, r)) el er

  many_groups : (nps == m * nps) ≡ false → Shuffled
  many_groups more =
      let (groups, e, made) = groups_of_lem (m * nps) nps (grind arith) in
      let (l, el, pl) =
        shuffled_groups m nps some_groups some_ranks hash_left exchange_left groups made left in
      let (r, er, pr) =
        shuffled_groups m nps some_groups some_ranks hash_right exchange_right groups made right in
      (
        l,
        r,
        many_groups_of groups e made more l el r er,
        (λ q.
            of_group m nps some_groups some_ranks hash_left exchange_left q (whole (m * nps) left)),
        (λ q.
            of_group m nps some_groups some_ranks hash_right exchange_right q
              (whole (m * nps) right)),
        (λ q p. (pl q p, pr q p)),
        join_bins cudf.matches m (hash_left.bin hash_partition_seed_ib m)
            (hash_right.bin hash_partition_seed_ib m)
            (λ l. hash_left.in_range hash_partition_seed_ib m l some_groups)
            (same_bin hash_partition_seed_ib m) (whole (m * nps) left) (whole (m * nps) right),
      )

  shuffled : Shuffled
  shuffled = elim (Bool-cases (nps == m * nps)) [
    | inl alone ↦ one_group alone
    | inr more ↦ many_groups more
  ]

  -- Groups of one rank join what the ranks hold.
  single_ranks :
      (l : ℕ → List L) (r : ℕ → List R) (whole_left : ℕ → List L) (whole_right : ℕ → List R)
      → nps ≡ 1
      → Held l r whole_left whole_right
      → Perm
          (rows_of (map (λ k. local_join_helper cudf (l k) (r k) ∷ []) (range 0 (m * nps))))
          (flat_map (λ q. join cudf.matches (whole_left q) (whole_right q)) (range 0 m))
  single_ranks l r whole_left whole_right e held =
      List.Perm.trans
        (same-Perm (
          flat_map-map (flat_map (λ j. j.rows)) (λ k. local_join_helper cudf (l k) (r k) ∷ [])
            (range 0 (m * nps))
          ∙ flat_map-range_ext _ (λ k. (local_join_helper cudf (l k) (r k)).rows) 0 (m * nps)
              (λ k _ _. append-nil _)
          ∙ ap (λ b. flat_map (λ k. (local_join_helper cudf (l k) (r k)).rows) (range b (m * nps)))
              {x = 0} {y = 0 * nps} (omega arith)
          ∙ flat_map-range_mul (λ k. (local_join_helper cudf (l k) (r k)).rows) nps m 0))
        (flat_map-range-Perm _ _ 0 m (λ q _ p.
          List.Perm.trans
            (flat_map-range-Perm _ _ 0 nps
              (λ i _ _. local_join_helper_lem cudf (l (q * nps + i)) (r (q * nps + i))))
            (List.Perm.trans
              (one_rank cudf.matches (λ i. l (q * nps + i)) (λ i. r (q * nps + i)) nps e)
              (join-Perm cudf.matches _ _ _ _ (held q (omega arith)).0 (held q (omega arith)).1))))

  -- The local results of all ranks together are the rows of the inner join of the whole tables.
  pub local_results_lem :
      (results : List (List (Joined L R))) × (local_results cudf hash_left hash_right exchange_left
          exchange_right
          (m * nps)
          nps
          over_decom_factor
          left
          right
        ≡ some results)
      × Perm (rows_of results) (join cudf.matches (whole (m * nps) left) (whole (m * nps) right))
  unfolding local_results
  local_results_lem =
      let (l, r, e, wl, wr, held, joined) = shuffled in
      elim (Bool-cases (nps == 1)) [
        | inl single ↦ (
          map (λ k. local_join_helper cudf (l k) (r k) ∷ []) (range 0 (m * nps)),
          ap (λ o. o >>= after) e ∙ if_true _ _ single,
          List.Perm.trans (single_ranks l r wl wr ((==_iff nps 1).0 single) held) joined,
        )
        | inr several ↦
            let (results, made, rows) =
              join_batches_lem cudf hash_left hash_right exchange_left exchange_right same_bin m nps
                over_decom_factor some_groups some_ranks some_batches l r wl wr held in
            (
              results,
              ap (λ o. o >>= after) e ∙ if_false _ _ several ∙ made,
              List.Perm.trans rows joined,
            )
      ]
    where
      after : (ℕ → List L) × (ℕ → List R) → Option (List (List (Joined L R)))
      after shuffled =
          if nps == 1
          then some (
              map (λ r. local_join_helper cudf (shuffled.0 r) (shuffled.1 r) ∷ [])
                (range 0 (m * nps)))
          else join_batches cudf hash_left hash_right exchange_left exchange_right (m * nps) nps
              over_decom_factor shuffled.0 shuffled.1
