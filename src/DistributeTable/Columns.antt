-- ===== src/DistributeTable/Columns.antt =====
-- One column: each rank gets its rows, and the root gets the rows of all ranks in order.
use distributed_join.Prelude.{
  ℕ, zero, suc, ◌+◌, ◌-◌, ◌*◌, ◌≤◌, ◌<◌, ◌≡◌, ◌≢◌, refl, sym, ap, ◌∙◌, some, List, [], ◌∷◌,
  append-nil, arith, length, get_or, take_all,
}
use distributed_join.Prelude.Ranges.{range, flat_map}
use distributed_join.Prelude.Segments.{slices_cover}
use distributed_join.Prelude.Slices.{slice, length-slice, scaled_fits, write_at_whole}
use distributed_join.Communicator.{Call, stop, send, sent_to, Transport, complete, ◌>>=◌}
use distributed_join.Communicator.Delivery.{
  sent_to-append, sent_to_only, receive_ok, complete_idle, complete-append,
}
use distributed_join.DistributeTable.{
  get_local_table_size, start_idx, distribute_cols_calls, distribute_cols,
}
use distributed_join.DistributeTable.Sizes.{start_idx-suc, start_idx-zero, start_idx_end}

module _ {A : Type 0} (global : List A) (g w p : ℕ) where
  -- The rows of rank `r` in the global column.
  abbrev pub part : ℕ → List A
  part r = slice global (start_idx g r p * w) (get_local_table_size g r p * w)

  start_idx_climbs : (n r : ℕ) → r + n ≡ p → start_idx g r p ≤ start_idx g p p
  start_idx_climbs zero r e =
      let at : start_idx g r p ≡ start_idx g p p = ap (λ k. start_idx g k p) (omega arith) in
      omega arith
  start_idx_climbs (suc n) r e =
      omega (arith, start_idx-suc g r p (omega arith), start_idx_climbs n (suc r) (omega arith))

  pub part_end : (r : ℕ) → r < p → start_idx g r p + get_local_table_size g r p ≤ g
  part_end r h = omega (
    arith,
    start_idx-suc g r p h,
    start_idx_climbs (p - suc r) (suc r) (omega arith),
    start_idx_end g p (omega arith),
  )

  module _ (whole : length global ≡ g * w) where
    pub length-part : (r : ℕ) → r < p → length (part r) ≡ get_local_table_size g r p * w
    length-part r h = length-slice global (start_idx g r p * w) (get_local_table_size g r p * w) (
        scaled_fits (start_idx g r p) (get_local_table_size g r p) g w (length global)
          (part_end r h) whole)

    -- The parts of all ranks make up the column.
    pub parts_cover : 0 < p → flat_map part (range 0 p) ≡ global
    parts_cover pos =
        slices_cover global (λ k. start_idx g k p * w) (λ k. get_local_table_size g k p * w) p
          (λ k h. omega (arith, ap (λ (v : ℕ). v * w) (start_idx-suc g k p h))) p 0 (g * w)
          (omega arith)
          (omega (
            arith,
            ap (λ (v : ℕ). v * w) (start_idx-zero g p),
            ap (λ (v : ℕ). v * w) (start_idx_end g p pos),
          ))
        ∙ ap (λ k. slice global k (g * w)) {y = 0}
            (omega (arith, ap (λ (v : ℕ). v * w) (start_idx-zero g p)))
        ∙ take_all (g * w) global (omega arith)

    -- What the root sends to each worker.
    pub sent_parts :
        (local_size r : ℕ)
        → 0 < r
        → r < p
        → sent_to r (distribute_cols_calls global g local_size w p 0) ≡ part r ∷ []
    unfolding distribute_cols_calls
    sent_parts local_size r pos h =
        sent_to-append r (flat_map post (range 1 (p - 1))) (stop ∷ [])
        ∙ append-nil _
        ∙ sent_to_only post r r 1 (p - 1) (omega arith) (omega arith) others
        ∙ hit
      where
        post : ℕ → List (Call A)
        post irank =
            send (slice global (start_idx g irank p * w) (get_local_table_size g irank p * w))
              (get_local_table_size g irank p) w irank
            ∷ []

        others : (j : ℕ) → j ≢ r → sent_to r (post j) ≡ []
        others j ne = ground arith

        hit : sent_to r (post r) ≡ part r ∷ []
        hit = ground arith

    -- Rank `r` ends with its rows of the global column.
    pub distribute_cols-part :
        (t : Transport A) (local_col : ℕ → List A) (r : ℕ)
        → r < p
        → length (local_col r) ≡ get_local_table_size g r p * w
        → distribute_cols t global g (λ k. get_local_table_size g k p) w p local_col r
          ≡ some (part r)
    unfolding distribute_cols complete
    distribute_cols-part t local_col zero h l =
        ap (λ o. o >>= λ m. some (get_or m.1 0 []))
          (complete-append (flat_map post (range 1 (p - 1))) (stop ∷ []) _
            ∙ ap (λ o. o >>= complete (stop ∷ []))
                (complete_idle post _ (range 1 (p - 1)) (λ j. refl)))
        ∙ ap some (
            write_at_whole (local_col 0) _ (first ∙ sym l)
            ∙ ap (λ k. slice global k (get_local_table_size g 0 p * w)) at)
      where
        post : ℕ → List (Call A)
        post irank =
            send (slice global (start_idx g irank p * w) (get_local_table_size g irank p * w))
              (get_local_table_size g irank p) w irank
            ∷ []

        at : 0 ≡ start_idx g 0 p * w
        at = omega (arith, ap (λ (k : ℕ). k * w) (start_idx-zero g p))

        first :
            length (slice global 0 (get_local_table_size g 0 p * w))
            ≡ get_local_table_size g 0 p * w
        first =
            ap (λ k. length (slice global k (get_local_table_size g 0 p * w))) at ∙ length-part 0 h
    distribute_cols-part t local_col (suc r) h l =
        ap (λ o. o >>= λ m. some (get_or m.1 0 []))
          (ap (λ o. o >>= complete (stop ∷ []))
            (receive_ok 0 0 (get_local_table_size g (suc r) p) w 0 _ (local_col (suc r) ∷ [])
              (part (suc r)) []
              (t.in_order _ (suc r) 0
                ∙ sent_parts (get_local_table_size g 0 p) (suc r) (omega arith) h)
              (length-part (suc r) h)))
        ∙ ap some
            (write_at_whole (local_col (suc r)) (part (suc r)) (length-part (suc r) h ∙ sym l))
