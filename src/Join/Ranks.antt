-- ===== src/Join/Ranks.antt =====
-- Where the rows of a table are after the shuffle, and in a batch, for ranks in groups of `nps`.
use distributed_join.Prelude.{
  ℕ, ◌+◌, ◌*◌, ◌/◌, ◌%◌, ◌<◌, ◌≤◌, ◌≡◌, sym, ap, ap₂, ◌∙◌, subst, arith, Option, none, some, List,
  [], ◌∷◌, ◌++◌, map, length, get_or, ◌==◌, take, drop, ◌>>=◌,
}
use native.Mathlib.Nat.{mod-eq_of_lt, div-eq_of_lt, mod-lt}
use distributed_join.Prelude.Slices.{mul_mono}
use distributed_join.Prelude.Ranges.{
  range, flat_map, each-range, get_or-map-range, flat_map-range_ext,
}
use distributed_join.Prelude.Perms.{
  keep, flat_map-range-Perm, flat_map-range_mul, flat_map_swap-Perm, flat_map-Perm, same-Perm,
  keep-flat_map,
}
use distributed_join.Group.{
  CommunicationGroup, communication_group, size, get_global_rank, get_local_idx,
}
use distributed_join.Group.Layout.{covers, own_local, global_eq, made_of_divides, group_at}
use distributed_join.Group.Collective.{IsCollective, made-IsCollective}
use distributed_join.Shuffle.{HashPartition, Exchange, Splits, rows_at, shuffle_on}
use distributed_join.Shuffle.Rows.{Splits-sub, rows_at-sub, gather_kept, shuffle_on_lem}
use distributed_join.Join.{
  hash_partition_seed_ib, hash_partition_seed, on_ranks, groups_of, batch_rows,
}
use mathlib.Core.List.{Perm}
use mathlib.Core.List as List

pub groups_of_lem :
    (grid stride : ℕ)
    → grid % stride ≡ 0
    → (groups : ℕ → CommunicationGroup) × (groups_of grid stride ≡ some groups)
      × ((k : ℕ) → communication_group k grid stride ≡ some (groups k))
unfolding groups_of
groups_of_lem grid stride e = (
  (λ r. elim (communication_group r grid stride) [ some g ↦ g | none ↦ group_at 0 grid stride ]),
  ap
      (λ o. o >>= λ first.
        some (λ (r : ℕ). elim (communication_group r grid stride) [ some g ↦ g | none ↦ first ]))
      (made_of_divides 0 grid stride e),
  λ k.
      made_of_divides k grid stride e
      ∙ ap some (
          sym (
            ap
              (λ (o : Option CommunicationGroup). elim o [
                | some g ↦ g
                | none ↦ group_at 0 grid stride
              ])
              (made_of_divides k grid stride e))),
)

pub on_ranks_lem :
    {B : Type 0} (p : ℕ) (default : B) (step : ℕ → Option B) (made : ℕ → B)
    → ((r : ℕ) → r < p → step r ≡ some (made r))
    → (all : ℕ → B) × (on_ranks p default step ≡ some all) × ((r : ℕ) → r < p → all r ≡ made r)
on_ranks_lem p default step made h = (
  (λ r. get_or (map made (range 0 p)) r default),
  ap (λ o. o >>= λ made. some (λ (r : ℕ). get_or made r default))
      (each-range step made 0 p (λ r _ q. h r (omega arith))),
  λ r q. get_or-map-range made default 0 p r q ∙ ap made {x = 0 + r} {y = r} (omega arith),
)

-- What a communication that succeeds brings.
abbrev pub arrived : {A : Type 0} → Option (List A) → List A
arrived none = []
arrived (some xs) = xs

pub arrived_lem :
    {A : Type 0} (o : Option (List A)) (ys : List A)
    → (rows : List A) × (o ≡ some rows) × Perm rows ys
    → (o ≡ some (arrived o)) × Perm (arrived o) ys
arrived_lem o ys (rows, e, p) =
    (e ∙ ap some (sym (ap arrived e)), List.Perm.trans (same-Perm (ap arrived e)) p)

-- `m` groups of `nps` ranks: rank `i` of group `q`.
module _ (m nps : ℕ) (some_groups : 0 < m) (some_ranks : 0 < nps) where
  split_rank : (q i : ℕ) → i < nps → ((q * nps + i) / nps ≡ q) × ((q * nps + i) % nps ≡ i)
  split_rank q i h = (grind arith, grind arith)

  in_world : (q i : ℕ) → q < m → i < nps → q * nps + i < m * nps
  in_world q i p h =
      let t : (q + 1) * nps ≤ m * nps = mul_mono (q + 1) m nps (omega arith) in omega arith

  world_pos : 0 < m * nps
  world_pos = let t : 1 * nps ≤ m * nps = mul_mono 1 m nps (omega arith) in omega arith

  -- The Infiniband group of rank `i` of group `q`: rank `i` of each group.
  module _ (groups : ℕ → CommunicationGroup)
      (made : (k : ℕ) → communication_group k (m * nps) nps ≡ some (groups k)) (q i : ℕ)
      (q_in : q < m) (i_in : i < nps) where
    ib_size : size (groups (q * nps + i)) ≡ m
    ib_size =
        let e : m * nps ≡ size (groups (q * nps + i)) * nps =
          covers (q * nps + i) (m * nps) nps (groups (q * nps + i)) some_ranks world_pos
            (made (q * nps + i)) in
        grind arith

    ib_local : get_local_idx (groups (q * nps + i)) ≡ q
    ib_local =
        own_local (q * nps + i) (m * nps) nps (groups (q * nps + i)) some_ranks world_pos
          (made (q * nps + i))
        ∙ ap (λ (v : ℕ). v / nps) (mod-eq_of_lt (in_world q i q_in i_in))
        ∙ (split_rank q i i_in).0

    ib_member : (k : ℕ) → get_global_rank (groups (q * nps + i)) k ≡ k * nps + i
    ib_member k =
        global_eq (q * nps + i) (m * nps) nps (groups (q * nps + i)) some_ranks world_pos
          (made (q * nps + i)) k
        ∙ ap₂ (λ (a b : ℕ). a * (m * nps) + b + k * nps) (div-eq_of_lt (in_world q i q_in i_in))
            (split_rank q i i_in).1
        ∙ omega arith

  -- The NVLink group of rank `j` of group `q`: the group itself.
  module _ (groups : ℕ → CommunicationGroup)
      (made : (k : ℕ) → communication_group k nps 1 ≡ some (groups k)) (q j : ℕ)
      (j_in : j < nps) where
    nvl_size : size (groups (q * nps + j)) ≡ nps
    nvl_size = omega (
      arith,
      covers (q * nps + j) nps 1 (groups (q * nps + j)) (omega arith) some_ranks
          (made (q * nps + j)),
    )

    nvl_local : get_local_idx (groups (q * nps + j)) ≡ j
    nvl_local =
        own_local (q * nps + j) nps 1 (groups (q * nps + j)) (omega arith) some_ranks
          (made (q * nps + j))
        ∙ ap (λ (v : ℕ). v / 1) (split_rank q j j_in).1
        ∙ omega arith

    nvl_member : (k : ℕ) → get_global_rank (groups (q * nps + j)) k ≡ q * nps + k
    nvl_member k =
        global_eq (q * nps + j) nps 1 (groups (q * nps + j)) (omega arith) some_ranks
          (made (q * nps + j)) k
        ∙ ap (λ (v : ℕ). v * nps + (q * nps + j) % 1 + k * 1) (split_rank q j j_in).0
        ∙ omega arith

  module _ {Row : Type 0} (h : HashPartition Row) (x : Exchange Row) where
    -- The rows for group `q`, of a whole table.
    abbrev pub of_group : ℕ → List Row → List Row
    of_group q = keep (λ row. h.bin hash_partition_seed_ib m row == q)

    abbrev pub of_bin : ℕ → ℕ → List Row → List Row
    of_bin over_decom_factor i =
        keep (λ row. h.bin hash_partition_seed (nps * over_decom_factor) row == i)

    -- What the ranks of group `q` hold.
    abbrev pub held_by : (ℕ → List Row) → ℕ → List Row
    held_by input q = flat_map (λ i. input (q * nps + i)) (range 0 nps)

    -- The shuffle in the Infiniband domain brings each group the rows for it.
    pub shuffled_groups :
        (groups : ℕ → CommunicationGroup)
        → ((k : ℕ) → communication_group k (m * nps) nps ≡ some (groups k))
        → (input : ℕ → List Row)
        → (shuffled : ℕ → List Row) × (on_ranks
              (m * nps)
              []
              (shuffle_on h x hash_partition_seed_ib groups input)
            ≡ some shuffled)
          × ((q : ℕ)
              → q < m
              → Perm (held_by shuffled q) (of_group q (flat_map input (range 0 (m * nps)))))
    shuffled_groups groups made input =
        let (all, e, same) =
          on_ranks_lem (m * nps) [] (shuffle_on h x hash_partition_seed_ib groups input) got
            (λ r _. (shuffle_on_lem x groups r (fit r) h hash_partition_seed_ib input).1) in
        (
          all,
          e,
          λ q p.
              List.Perm.trans
                (flat_map-range-Perm (λ i. all (q * nps + i))
                  (λ i. of_group q (flat_map (λ k. input (k * nps + i)) (range 0 m))) 0 nps
                  (λ i _ b.
                    List.Perm.trans (same-Perm (same (q * nps + i) (in_world q i p (omega arith))))
                      (got_rows q i p (omega arith))))
                (List.Perm.trans
                  (same-Perm (
                    sym (
                      keep-flat_map _ (λ i. flat_map (λ k. input (k * nps + i)) (range 0 m))
                        (range 0 nps))))
                  (List.Perm.trans
                    (flat_map-Perm _ _ _
                      (flat_map_swap-Perm (λ i k. input (k * nps + i)) (range 0 nps) (range 0 m)))
                    (same-Perm (
                      ap (of_group q) (
                        sym (
                          ap (λ b. flat_map input (range b (m * nps))) {x = 0} {y = 0 * nps}
                            (omega arith)
                          ∙ flat_map-range_mul input nps m 0)))))),
        )
      where
        fit : (r : ℕ) → IsCollective groups r
        fit r = made-IsCollective groups (m * nps) nps r some_ranks world_pos made

        got : ℕ → List Row
        got r = (shuffle_on_lem x groups r (fit r) h hash_partition_seed_ib input).0

        got_rows :
            (q i : ℕ)
            → q < m
            → i < nps
            → Perm
                (got (q * nps + i))
                (of_group q (flat_map (λ k. input (k * nps + i)) (range 0 m)))
        got_rows q i p b =
            let g : CommunicationGroup = groups (q * nps + i) in
            List.Perm.trans
              (shuffle_on_lem x groups (q * nps + i) (fit (q * nps + i)) h hash_partition_seed_ib
                input).2
              (same-Perm (
                ap
                  (λ n.
                    keep (λ row. h.bin hash_partition_seed_ib n row == get_local_idx g)
                      (flat_map (λ i. input (get_global_rank g i)) (range 0 n)))
                  (ib_size groups made q i p b)
                ∙ ap₂ (λ l rows. keep (λ row. h.bin hash_partition_seed_ib m row == l) rows)
                    (ib_local groups made q i p b)
                    (flat_map-range_ext _ _ 0 m
                      (λ k _ _. ap input (ib_member groups made q i p b k)))))

    -- A batch brings a rank the rows of its group that are in one bin.
    pub batch_rows_lem :
        (groups : ℕ → CommunicationGroup)
        → ((k : ℕ) → communication_group k nps 1 ≡ some (groups k))
        → (input : ℕ → List Row) (over_decom_factor b q j : ℕ) → b < over_decom_factor
        → j < nps
        → (rows : List Row) × (batch_rows h x nps over_decom_factor groups input b (q * nps + j)
            ≡ some rows)
          × Perm rows (of_bin over_decom_factor (b * nps + j) (held_by input q))
    unfolding batch_rows
    batch_rows_lem groups made input over_decom_factor b q j p r =
        let (rows, e, perm) =
          gather_kept x groups rank fit (λ k. (hashed k).0)
            (λ k. take (nps + 1) (drop (b * nps) (offset k))) input
            (λ row. h.bin hash_partition_seed (nps * over_decom_factor) row == b * nps + j)
            (λ i _.
              (splits (get_global_rank (groups rank) i), kept (get_global_rank (groups rank) i))) in
        (
          rows,
          e,
          List.Perm.trans perm (
              same-Perm (
                ap (of_bin over_decom_factor (b * nps + j)) (
                  ap (λ n. flat_map (λ i. input (get_global_rank (groups rank) i)) (range 0 n))
                    (nvl_size groups made q j r)
                  ∙ flat_map-range_ext _ _ 0 nps
                      (λ k _ _. ap input (nvl_member groups made q j r k))))),
        )
      where
        rank : ℕ
        rank = q * nps + j

        fit : IsCollective groups rank
        fit = made-IsCollective groups nps 1 rank (omega arith) some_ranks made

        hashed : ℕ → List Row × List ℕ
        hashed k = h.hash_partition hash_partition_seed (nps * over_decom_factor) (input k)

        offset : ℕ → List ℕ
        offset k = (hashed k).1 ++ length (input k) ∷ []

        rest : b * nps + nps ≤ nps * over_decom_factor
        rest =
            let t : (b + 1) * nps ≤ over_decom_factor * nps =
              mul_mono (b + 1) over_decom_factor nps (omega arith) in
            omega arith

        splits :
            (k : ℕ)
            → Splits (size (groups rank)) (hashed k).0 (take (nps + 1) (drop (b * nps) (offset k)))
        splits k =
            subst (λ n. Splits n (hashed k).0 (take (nps + 1) (drop (b * nps) (offset k))))
              (sym (nvl_size groups made q j r))
              (Splits-sub nps (b * nps) (nps * over_decom_factor) (hashed k).0 (offset k) rest (
                subst (λ n. Splits (nps * over_decom_factor) (hashed k).0 ((hashed k).1 ++ n ∷ []))
                  (h.all_rows hash_partition_seed (nps * over_decom_factor) (input k))
                  (h.splits hash_partition_seed (nps * over_decom_factor) (input k))))

        kept :
            (k : ℕ)
            → Perm
                (rows_at
                  (hashed k).0
                  (take (nps + 1) (drop (b * nps) (offset k)))
                  (get_local_idx (groups rank)))
                (of_bin over_decom_factor (b * nps + j) (input k))
        kept k =
            List.Perm.trans
              (same-Perm (
                ap (rows_at (hashed k).0 (take (nps + 1) (drop (b * nps) (offset k))))
                  (nvl_local groups made q j r)
                ∙ rows_at-sub nps (b * nps) (hashed k).0 (offset k) j r
                ∙ ap (λ n. rows_at (hashed k).0 ((hashed k).1 ++ n ∷ []) (b * nps + j))
                    (sym (h.all_rows hash_partition_seed (nps * over_decom_factor) (input k)))))
              (h.parts hash_partition_seed (nps * over_decom_factor) (input k) (b * nps + j)
                (omega (arith, rest)))

    pub batch_arrived :
        (groups : ℕ → CommunicationGroup)
        → ((k : ℕ) → communication_group k nps 1 ≡ some (groups k))
        → (input : ℕ → List Row) (over_decom_factor b r : ℕ) → b < over_decom_factor
        → let o = batch_rows h x nps over_decom_factor groups input b r in
          (o ≡ some (arrived o))
          × Perm
              (arrived o)
              (of_bin over_decom_factor (b * nps + r % nps) (held_by input (r / nps)))
    batch_arrived groups made input over_decom_factor b r p = arrived_lem _ _ (
        subst
          (λ k.
            (rows : List Row) × (batch_rows h x nps over_decom_factor groups input b k ≡ some rows)
            × Perm rows (of_bin over_decom_factor (b * nps + r % nps) (held_by input (r / nps))))
          {x = r / nps * nps + r % nps} {y = r} (grind arith)
          (batch_rows_lem groups made input over_decom_factor b (r / nps) (r % nps) p
            (mod-lt r some_ranks)))
