-- ===== src/AllToAll/Sizes.antt =====
-- `communicate_sizes` gives a rank the offsets of what the members of its group have for it.
use distributed_join.Prelude.{
  ℕ, ◌+◌, ◌<◌, ◌≡◌, refl, sym, ap, ap₂, ◌∙◌, false, some, List, [], ◌∷◌, ◌++◌, map, arith, get_or,
  replicate,
}
use distributed_join.Prelude.Ranges.{
  range, flat_map, get_or-map-range, flat_map_singles, replicate-flat_map,
}
use distributed_join.Prelude.Segments.{offsets_of, diffs}
use distributed_join.Group.{CommunicationGroup, size, get_global_rank, get_local_idx}
use distributed_join.Group.Collective.{IsCollective}
use distributed_join.Communicator.{Call, Transport, Memory, complete, ◌>>=◌}
use distributed_join.Communicator.Delivery.{
  sent_to-append, complete-append, receive_loop, receive_round, send_round, sent_by_rounds,
  complete_sends, sent_by_receives,
}
use distributed_join.AllToAll.{send_counts, communicate_sizes_calls, communicate_sizes}

module _ (mpi : Transport ℕ) (groups : ℕ → CommunicationGroup) (send_offset : ℕ → List ℕ) (r : ℕ)
    (c : IsCollective groups r) where
  abbrev member : ℕ → ℕ
  member i = get_global_rank (groups r) i

  abbrev me : ℕ
  me = get_local_idx (groups r)

  -- The counts for this rank, by member.
  abbrev pub counts_for : List ℕ
  counts_for = map (λ i. diffs (send_offset (member i)) me) (range 0 (size (groups r)))

  abbrev all_calls : ℕ → List (Call ℕ)
  all_calls k = communicate_sizes_calls (send_offset k) (groups k)

  -- The one message that member `i` has for this rank.
  arrived :
      (i : ℕ)
      → i < size (groups r)
      → mpi.inbox all_calls r (member i) ≡ (diffs (send_offset (member i)) me ∷ []) ∷ []
  unfolding communicate_sizes_calls
  arrived i h =
      mpi.in_order all_calls r (member i)
      ∙ sent_to-append r
          (flat_map (send_round 1 (λ _. false) payload (λ _. 1) dest)
            (range 0 (size (groups (member i)))))
          (flat_map (receive_round 0 1 (λ _. false) dest (λ k. k) (λ _. 1))
            (range 0 (size (groups (member i)))))
      ∙ ap₂ ◌++◌
          (sent_by_rounds 1 (λ _. false) payload (λ _. 1) dest r me 0 (size (groups (member i)))
            (omega arith) in_member
            (λ j k e. c.distinct j k (sym (c.agree i h j) ∙ e ∙ c.agree i h k))
            (c.agree i h me ∙ c.me_at) refl)
          (sent_by_receives 0 1 (λ _. false) dest (λ k. k) (λ _. 1) r
            (range 0 (size (groups (member i)))))
      ∙ ap (λ v. (v ∷ []) ∷ [])
          (get_or-map-range (diffs (send_offset (member i))) 0 0 (size (groups (member i))) me
              (omega (arith, in_member))
            ∙ ap (diffs (send_offset (member i))) (omega arith))
    where
      dest : ℕ → ℕ
      dest k = get_global_rank (groups (member i)) k

      payload : ℕ → List ℕ
      payload k = get_or (send_counts (send_offset (member i)) (size (groups (member i)))) k 0 ∷ []

      in_member : me < 0 + size (groups (member i))
      in_member = omega (arith, c.same_size i h, c.me_in)

  -- The offsets received are the running sums of the counts that the members have for this rank.
  pub communicate_sizes_lem :
      communicate_sizes mpi groups send_offset r ≡ some (offsets_of 0 counts_for)
  unfolding communicate_sizes communicate_sizes_calls complete
  communicate_sizes_lem =
      ap (λ o. o >>= λ m. some (offsets_of 0 (get_or m.1 0 [])))
        (complete-append
            (flat_map
              (send_round 1 (λ _. false) (λ k. get_or (send_counts (send_offset r) n) k 0 ∷ [])
                (λ _. 1) member)
              (range 0 n))
            (flat_map (receive_round 0 1 (λ _. false) member (λ k. k) (λ _. 1)) (range 0 n)) start
          ∙ ap
              (λ o.
                o
                >>= complete (
                    flat_map (receive_round 0 1 (λ _. false) member (λ k. k) (λ _. 1)) (range 0 n)))
              (complete_sends 1 (λ _. false) _ (λ _. 1) member start (range 0 n))
          ∙ receive_loop 0 1 (λ _. false) member (λ k. k) (λ _. 1) n (λ _. 0 ∷ [])
              (λ i. diffs (send_offset (member i)) me ∷ []) (λ _. []) (λ k _. omega arith)
              (λ k _. refl) (λ k _. refl) c.distinct n 0 [] (mpi.inbox all_calls r)
              (replicate n 0 ∷ []) (omega arith) (omega arith) (replicate-flat_map 0 0 n) refl
              (λ k _ h _. arrived k h))
      ∙ ap (λ v. some (offsets_of 0 v))
          (flat_map_singles (λ i. diffs (send_offset (member i)) me) (range 0 n))
    where
      n : ℕ
      n = size (groups r)

      start : Memory ℕ
      start = (mpi.inbox all_calls r, replicate n 0 ∷ [])
