-- ===== src/DistributeTable/Collect.antt =====
-- One column of `collect_tables`: the root ends with the rows of all ranks, in the order of ranks.
use distributed_join.Prelude.{
  ℕ, zero, suc, ◌+◌, ◌-◌, ◌*◌, ◌≤◌, ◌<◌, ◌≡◌, sym, ap, ◌∙◌, Bool, true, false, if◌then◌else◌,
  if_true, some, List, [], ◌∷◌, ◌++◌, map, arith, length, get_or, drop, sum, replicate, take_all,
  length-replicate, length-map, length-drop,
}
use distributed_join.Prelude.Ranges.{range, flat_map, length-range, get_or-map-range}
use distributed_join.Prelude.Segments.{
  offsets_of, last_or, slices_cover, get_or-offsets_of, last_or-offsets_of, sum-take-suc,
}
use distributed_join.Prelude.Slices.{slice, write_at, length-slice}
use distributed_join.Communicator.{Call, stop, sent_to, Transport, complete, ◌>>=◌}
use distributed_join.Communicator.Delivery.{complete-append, receive_loop, receive_round}
use distributed_join.DistributeTable.{collect_calls, collect_col}

module _ {A : Type 0} (col : ℕ → List A) (nrows : ℕ → ℕ) (w p : ℕ) where
  abbrev counts : List ℕ
  counts = map nrows (range 0 p)

  abbrev offset : ℕ → ℕ
  offset k = get_or (offsets_of 0 counts) k 0 * w

  module _ (sized : (k : ℕ) → k < p → length (col k) ≡ nrows k * w) where
    length-counts : length counts ≡ p
    length-counts = length-map nrows (range 0 p) ∙ length-range 0 p

    count_at : (k : ℕ) → k < p → get_or counts k 0 ≡ nrows k
    count_at k h = get_or-map-range nrows 0 0 p k h ∙ ap nrows (omega arith)

    offset_next : (k : ℕ) → k < p → offset (suc k) ≡ offset k + get_or counts k 0 * w
    offset_next k h = omega (
      arith,
      ap (λ (v : ℕ). v * w)
          (get_or-offsets_of 0 counts (suc k) (omega (arith, length-counts))
            ∙ ap (λ v. 0 + v) (sum-take-suc counts k)),
      ap (λ (v : ℕ). v * w) (get_or-offsets_of 0 counts k (omega (arith, length-counts))),
    )

    total_at : offset p ≡ last_or (offsets_of 0 counts) 0 * w
    total_at =
        ap (λ (v : ℕ). v * w)
          (get_or-offsets_of 0 counts p (omega (arith, length-counts))
            ∙ ap (λ (v : List ℕ). 0 + sum v) (take_all p counts (omega (arith, length-counts)))
            ∙ sym (last_or-offsets_of 0 counts 0))

    offset_fits : (n k : ℕ) → k + n ≡ p → offset k ≤ offset p
    offset_fits zero k e = let at : offset k ≡ offset p = ap offset (omega arith) in omega arith
    offset_fits (suc n) k e =
        omega (arith, offset_next k (omega arith), offset_fits n (suc k) (omega arith))

    module _ (t : Transport A) (junk : A) (some_rank : 0 < p) (has_column : ℕ → Bool)
        (dtype_size : ℕ → ℕ) (all_have : (k : ℕ) → k < p → has_column k ≡ true)
        (same_size : (k : ℕ) → k < p → dtype_size k ≡ w) where
      abbrev merged : List A
      merged = replicate (last_or (offsets_of 0 counts) 0 * w) junk

      abbrev old : ℕ → List A
      old k = slice merged (offset k) (get_or counts k 0 * w)

      length-old : (k : ℕ) → k < p → length (old k) ≡ get_or counts k 0 * w
      length-old k h = length-slice merged (offset k) (get_or counts k 0 * w) (
          omega (
            arith,
            offset_next k h,
            offset_fits (p - suc k) (suc k) (omega arith),
            total_at,
            length-replicate (last_or (offsets_of 0 counts) 0 * w) junk,
          ))

      first_offset : offset 1 ≡ length (col 0)
      first_offset = omega (
        arith,
        offset_next 0 some_rank,
        sized 0 some_rank,
        ap (λ (v : ℕ). v * w) (count_at 0 some_rank),
      )

      -- Behind the root's own rows lie the places of the other ranks.
      behind_root : drop (0 + length (col 0)) merged ≡ flat_map old (range 1 (p - 1))
      behind_root =
          ap (λ k. drop k merged) (omega (arith, first_offset))
          ∙ sym (
              take_all (offset p - offset 1) (drop (offset 1) merged) (
                omega (
                  arith,
                  length-drop (offset 1) merged,
                  total_at,
                  length-replicate (last_or (offsets_of 0 counts) 0 * w) junk,
                )))
          ∙ sym (
              slices_cover merged offset (λ k. get_or counts k 0 * w) p offset_next (p - 1) 1
                (offset p - offset 1) (omega arith)
                (omega (arith, offset_fits (p - 1) 1 (omega arith))))

      copied_split :
          write_at merged 0 (slice (col 0) 0 (get_or counts 0 0 * w))
          ≡ col 0 ++ flat_map old (range 1 (p - 1))
      unfolding write_at
      copied_split =
          ap (write_at merged 0) (
            take_all (get_or counts 0 0 * w) (col 0)
              (omega (arith, sized 0 some_rank, ap (λ (v : ℕ). v * w) (count_at 0 some_rank))))
          ∙ ap (◌++◌ (col 0)) behind_root

      abbrev all_calls : ℕ → List (Call A)
      all_calls k =
          if has_column k then collect_calls (col k) (nrows k) counts (dtype_size k) p k else []

      arrived : (k : ℕ) → 1 ≤ k → k < p → t.inbox all_calls 0 k ≡ col k ∷ []
      unfolding collect_calls
      arrived zero q h = absurd (omega arith)
      arrived (suc k) q h =
          t.in_order all_calls 0 (suc k)
          ∙ ap (sent_to 0) (if_true _ _ (all_have (suc k) h))
          ∙ ap (λ v. slice (col (suc k)) 0 (nrows (suc k) * v) ∷ []) (same_size (suc k) h)
          ∙ ap (λ u. u ∷ [])
              (take_all (nrows (suc k) * w) (col (suc k)) (omega (arith, sized (suc k) h)))

      -- The root's column is the columns of all ranks, one behind the other.
      pub collect_col_all :
          collect_col t junk has_column col nrows counts dtype_size p
          ≡ some (flat_map col (range 0 p))
      unfolding collect_col complete collect_calls
      collect_col_all =
          ap
            (λ (v : ℕ).
              complete (collect_calls (col 0) (nrows 0) counts v p 0) (
                t.inbox all_calls 0,
                write_at (replicate (last_or (offsets_of 0 counts) 0 * v) junk) 0
                      (slice (col 0) 0 (get_or counts 0 0 * v))
                    ∷ [],
              )
              >>= λ m. some (get_or m.1 0 []))
            (same_size 0 some_rank)
          ∙ ap (λ o. o >>= λ m. some (get_or m.1 0 []))
              (complete-append
                  (flat_map
                    (receive_round 0 w (λ _. false) (λ k. k) offset (λ k. get_or counts k 0))
                    (range 1 (p - 1)))
                  (stop ∷ []) _
                ∙ ap (λ o. o >>= complete (stop ∷ []))
                    (receive_loop 0 w (λ _. false) (λ k. k) offset (λ k. get_or counts k 0) p old
                      col (λ _. []) next length-old same (λ j k e. e) (p - 1) 1 (col 0)
                      (t.inbox all_calls 0) (copied ∷ []) (omega arith) (omega arith) copied_split
                      first_offset (λ k q h _. arrived k q h)))
          ∙ ap some (ap (λ n. flat_map col (range 0 n)) {x = suc (p - 1)} (omega arith))
        where
          copied : List A
          copied = write_at merged 0 (slice (col 0) 0 (get_or counts 0 0 * w))

          same : (k : ℕ) → k < p → length (col k) ≡ get_or counts k 0 * w
          same k h = sized k h ∙ ap (λ (v : ℕ). v * w) (sym (count_at k h))

          next : (k : ℕ) → k < p → offset (suc k) ≡ offset k + length (old k)
          next k h = offset_next k h ∙ ap (λ (v : ℕ). offset k + v) (sym (length-old k h))
