-- ===== src/AllToAll/Comm/Staged.antt =====
-- `all_to_all_comm` from its staged buffers on.
use distributed_join.Prelude.{
  ℕ, ◌*◌, ◌<◌, ◌≡◌, ap, ◌∙◌, Bool, Option, some, List, [], map, arith, length, get_or, ◌>>=◌,
  length-map, fun_ext,
}
use distributed_join.Prelude.Ranges.{range, flat_map, each, map-range_ext}
use distributed_join.Prelude.Segments.{diffs}
use distributed_join.Group.{CommunicationGroup, size}
use distributed_join.Group.Collective.{IsCollective}
use distributed_join.Communicator.{Call, Transport, Memory, complete}
use distributed_join.Compression.{TypeId, Nvcomp}
use distributed_join.AllToAll.Messages.{Wire, wire_calls, Fits, piece, gathered, exchange}
use distributed_join.AllToAll.Comm.{
  AllToAllCommBuffer, stage_buffer, wire, target, received, nth, buffers_calls, or_else,
  all_to_all_comm,
}

module _ {A : Type 0} (nvcomp : Nvcomp A) (size_of : TypeId → ℕ) (junk : A) (t : Transport A)
    (mpi : Transport ℕ) (groups : ℕ → CommunicationGroup) (batch include : Bool)
    (buffers : ℕ → List (AllToAllCommBuffer A)) (r : ℕ) (c : IsCollective groups r) (all : ℕ)
    (prepared : ℕ → List (AllToAllCommBuffer A)) (same : (k : ℕ) → length (prepared k) ≡ all)
    (staged : (k : ℕ)
      → each
          (λ b.
            stage_buffer nvcomp size_of junk mpi groups include
              (λ j. nth nvcomp size_of junk (buffers j) b)
              k)
          (range 0 (length (buffers k)))
        ≡ some (prepared k)) where
  abbrev pub staged_wires : ℕ → ℕ → Wire A
  staged_wires k b = wire nvcomp size_of junk (nth nvcomp size_of junk (prepared k) b)

  abbrev pub targets : List (List A)
  targets = map (target nvcomp size_of junk) (prepared r)

  pub length-targets : length targets ≡ all
  length-targets = length-map _ (prepared r) ∙ same r

  module _
      (fits : (b : ℕ) → b < all → Fits (size (groups r)) (staged_wires r b) (get_or targets b []))
      (alike : (b i : ℕ)
        → b < all
        → i < size (groups r)
        → length (piece t groups batch include all staged_wires r c b i)
          ≡ diffs (staged_wires r b).recv_offsets i * (staged_wires r b).item_size) where
    -- What a buffer receives.
    abbrev pub staged_items : ℕ → List A
    staged_items b =
        gathered t groups batch include all staged_wires r c targets length-targets fits alike b

    pub all_to_all_comm_staged :
        all_to_all_comm nvcomp size_of junk t mpi groups batch include buffers r
        ≡ some (
            map
              (λ b.
                received nvcomp size_of junk
                  (nth nvcomp size_of junk (prepared r) b)
                  (staged_items b))
              (range 0 all))
    unfolding all_to_all_comm
    all_to_all_comm_staged =
        let (left, bs, done, at) =
          exchange t groups batch include all staged_wires r c targets length-targets fits alike in
        ap (λ o. o >>= finish) (staged r)
        ∙ ap (λ f. complete (f r) (t.inbox f r, targets) >>= put (prepared r))
            {y = λ k.
              flat_map (λ b. wire_calls batch (groups k) k include b (staged_wires k b))
                (range 0 all)}
            (fun_ext calls_staged)
        ∙ ap (λ m. m >>= put (prepared r)) done
        ∙ ap
            (λ n. some (
              map
                (λ b.
                  received nvcomp size_of junk (nth nvcomp size_of junk (prepared r) b)
                    (get_or bs b []))
                (range 0 n)))
            (same r)
        ∙ ap some (
            map-range_ext _ _ 0 all (λ b _ h.
              ap (received nvcomp size_of junk (nth nvcomp size_of junk (prepared r) b))
                (at b (omega arith))))
      where
        put : List (AllToAllCommBuffer A) → Memory A → Option (List (AllToAllCommBuffer A))
        put bs m = some (
            map (λ b. received nvcomp size_of junk (nth nvcomp size_of junk bs b) (get_or m.1 b []))
              (range 0 (length bs)))

        calls : ℕ → List (Call A)
        calls k = buffers_calls nvcomp size_of junk batch (groups k) k include (
            or_else
              (each
                (λ b.
                  stage_buffer nvcomp size_of junk mpi groups include
                    (λ j. nth nvcomp size_of junk (buffers j) b) k)
                (range 0 (length (buffers k))))
              [])

        finish : List (AllToAllCommBuffer A) → Option (List (AllToAllCommBuffer A))
        finish bs =
            complete (calls r) (t.inbox calls r, map (target nvcomp size_of junk) bs) >>= put bs

        calls_staged :
            (k : ℕ)
            → calls k
              ≡ flat_map
                  (λ b. wire_calls batch (groups k) k include b (staged_wires k b))
                  (range 0 all)
        calls_staged k =
            ap (λ o. buffers_calls nvcomp size_of junk batch (groups k) k include (or_else o []))
              (staged k)
            ∙ ap
                (λ n.
                  flat_map (λ b. wire_calls batch (groups k) k include b (staged_wires k b))
                    (range 0 n))
                (same k)
