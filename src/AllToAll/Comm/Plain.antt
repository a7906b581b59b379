-- ===== src/AllToAll/Comm/Plain.antt =====
-- `all_to_all_comm` where no buffer is compressed.
use distributed_join.Prelude.{
  ℕ, ◌*◌, ◌<◌, ◌≡◌, sym, ap, ap₂, ◌∙◌, Bool, Option, some, List, [], map, arith, length, get_or,
  ◌>>=◌, length-map, fun_ext,
}
use distributed_join.Prelude.Ranges.{
  range, flat_map, each, each-map, map_self, map-get_or-range, map-range_ext, flat_map-range_ext,
}
use distributed_join.Prelude.Segments.{diffs}
use distributed_join.Group.{CommunicationGroup, size}
use distributed_join.Group.Collective.{IsCollective}
use distributed_join.Communicator.{Call, Transport, Memory, complete}
use distributed_join.Compression.{CompressionMethod, TypeId, Nvcomp}
use distributed_join.AllToAll.Messages.{
  Wire, wire_calls, Fits, piece, gathered, exchange, all_calls,
}
use distributed_join.AllToAll.Comm.{
  AllToAllCommBuffer, stage_buffer, to_compress, wire_by, target, target_by, received, received_by,
  nth, no_buffer, buffers_calls, or_else, all_to_all_comm,
}

module _ {A : Type 0} (nvcomp : Nvcomp A) (size_of : TypeId → ℕ) (junk : A) (t : Transport A)
    (mpi : Transport ℕ) (groups : ℕ → CommunicationGroup) (batch include : Bool)
    (buffers : ℕ → List (AllToAllCommBuffer A)) (r : ℕ) (c : IsCollective groups r) where
  -- The buffers are sent as they are.
  abbrev pub wires : ℕ → ℕ → Wire A
  wires k b =
      wire_by nvcomp size_of junk CompressionMethod.none (nth nvcomp size_of junk (buffers k) b)

  abbrev pub all : ℕ
  all = length (buffers r)

  abbrev pub IsPlain : Type 0
  IsPlain =
      (k b : ℕ)
      → (nth nvcomp size_of junk (buffers k) b).compression_method ≡ CompressionMethod.none

  abbrev buffer : ℕ → ℕ → AllToAllCommBuffer A
  buffer k b = nth nvcomp size_of junk (buffers k) b

  to_compress_plain :
      (m : CompressionMethod) (b : AllToAllCommBuffer A) (o : Option (AllToAllCommBuffer A))
      → m ≡ CompressionMethod.none
      → to_compress nvcomp size_of junk m b o ≡ some b
  to_compress_plain m b o e = ap (λ k. to_compress nvcomp size_of junk k b o) e

  staged_plain :
      IsPlain
      → (k : ℕ)
      → each
          (λ b. stage_buffer nvcomp size_of junk mpi groups include (λ j. buffer j b) k)
          (range 0 (length (buffers k)))
        ≡ some (buffers k)
  unfolding stage_buffer
  staged_plain plain k =
      each-map _ (buffer k) (range 0 (length (buffers k)))
        (λ b. to_compress_plain _ (buffer k b) _ (plain k b))
      ∙ ap some (
          map-get_or-range (λ b. b) (no_buffer nvcomp size_of junk) (buffers k)
          ∙ map_self (buffers k))

  calls_plain :
      IsPlain
      → ((k : ℕ) → length (buffers k) ≡ all)
      → (k : ℕ)
      → buffers_calls nvcomp size_of junk batch (groups k) k include (
          or_else
            (each
              (λ b. stage_buffer nvcomp size_of junk mpi groups include (λ j. buffer j b) k)
              (range 0 (length (buffers k))))
            [])
        ≡ flat_map (λ b. wire_calls batch (groups k) k include b (wires k b)) (range 0 all)
  calls_plain plain same k =
      ap (λ o. buffers_calls nvcomp size_of junk batch (groups k) k include (or_else o []))
        (staged_plain plain k)
      ∙ flat_map-range_ext _ _ 0 (length (buffers k)) (λ b _ _.
        ap
          (λ m.
            wire_calls batch (groups k) k include b (wire_by nvcomp size_of junk m (buffer k b)))
          (plain k b))
      ∙ ap (λ n. flat_map (λ b. wire_calls batch (groups k) k include b (wires k b)) (range 0 n))
          (same k)

  -- What the receive buffers hold at first.
  abbrev pub held : List (List A)
  held = map (λ b. b.recv_buffer) (buffers r)

  module _ (plain : IsPlain) (same : (k : ℕ) → length (buffers k) ≡ all)
      (fits : (b : ℕ) → b < all → Fits (size (groups r)) (wires r b) (get_or held b []))
      (alike : (b i : ℕ)
        → b < all
        → i < size (groups r)
        → length (piece t groups batch include all wires r c b i)
          ≡ diffs (wires r b).recv_offsets i * (wires r b).item_size) where
    -- The items of the members, in the order of the members.
    abbrev pub plain_items : ℕ → List A
    plain_items b =
        gathered t groups batch include all wires r c held
          (length-map (λ b. b.recv_buffer) (buffers r)) fits alike b

    targets_plain : map (target nvcomp size_of junk) (buffers r) ≡ held
    targets_plain =
        sym (
          map-get_or-range (target nvcomp size_of junk) (no_buffer nvcomp size_of junk) (buffers r))
        ∙ map-range_ext _ _ 0 all
            (λ b _ _. ap (λ m. target_by nvcomp size_of junk m (buffer r b)) (plain r b))
        ∙ map-get_or-range (λ b. b.recv_buffer) (no_buffer nvcomp size_of junk) (buffers r)

    -- Uncompressed buffers end with what the members of the group have for this rank, in the order
    -- of the members, and nothing else of them changes.
    pub all_to_all_comm_plain :
        all_to_all_comm nvcomp size_of junk t mpi groups batch include buffers r
        ≡ some (map (λ b. record (buffer r b) { recv_buffer = plain_items b }) (range 0 all))
    unfolding all_to_all_comm
    all_to_all_comm_plain =
        let (left, bs, done, at) =
          exchange t groups batch include all wires r c held
            (length-map (λ b. b.recv_buffer) (buffers r)) fits alike in
        ap (λ o. o >>= finish) (staged_plain plain r)
        ∙ ap
            (λ f.
              complete (f r) (t.inbox f r, map (target nvcomp size_of junk) (buffers r))
              >>= put (buffers r))
            {y = λ k.
              flat_map (λ b. wire_calls batch (groups k) k include b (wires k b)) (range 0 all)}
            (fun_ext (calls_plain plain same))
        ∙ ap (λ m. m >>= put (buffers r))
            (ap
                (λ bs.
                  complete (all_calls t groups batch include all wires r c r)
                    (t.inbox (all_calls t groups batch include all wires r c) r, bs))
                targets_plain
              ∙ done)
        ∙ ap some (
            map-range_ext _ _ 0 all (λ b _ h.
              ap₂ (λ m got. received_by nvcomp size_of junk m (buffer r b) got) (plain r b)
                (at b (omega arith))))
      where
        put : List (AllToAllCommBuffer A) → Memory A → Option (List (AllToAllCommBuffer A))
        put bs m = some (
            map (λ b. received nvcomp size_of junk (nth nvcomp size_of junk bs b) (get_or m.1 b []))
              (range 0 (length bs)))

        calls : ℕ → List (Call A)
        calls k = buffers_calls nvcomp size_of junk batch (groups k) k include (
            or_else
              (each (λ b. stage_buffer nvcomp size_of junk mpi groups include (λ j. buffer j b) k)
                (range 0 (length (buffers k))))
              [])

        finish : List (AllToAllCommBuffer A) → Option (List (AllToAllCommBuffer A))
        finish bs =
            complete (calls r) (t.inbox calls r, map (target nvcomp size_of junk) bs) >>= put bs
