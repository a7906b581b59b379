-- ===== src/Communicator/Nccl/Groups.antt =====
-- What `stop` finds after the calls of a group.
use distributed_join.Prelude.{
  ℕ, suc, ◌+◌, ◌*◌, ◌%◌, ◌<◌, ◌≤◌, ◌≡◌, refl, sym, ap, ap₂, ◌∙◌, subst, arith, List, [], ◌∷◌, ◌++◌,
  map, map-append, append-nil, append_assoc, length, length-map, get_or, length-append,
}
use distributed_join.Prelude.Ranges.{
  range, get_or-append, map-range_ext, map-get_or-range, get_or-map, map_self,
}
use distributed_join.Communicator.{Call, start, stop, send, recv}
use distributed_join.Communicator.Nccl.{
  aligned_size, Place, no_place, NcclCommunicator, cleared, Copy, nccl_call, nccl_calls,
  stop_copies, stop_deallocates,
}

-- The buffer is large enough, by less than 256 bytes, and aligned.
pub aligned_size_lem :
    (n : ℕ) → (n ≤ aligned_size n) × (aligned_size n < n + 256) × (aligned_size n % 256 ≡ 0)
unfolding aligned_size
aligned_size_lem n = (omega arith, omega arith, omega arith)

module _ {A : Type 0} where
  -- The sends and receives of a group have communication buffers, numbered from `i` on.
  abbrev pub buffer_sizes : List (Call A) → List ℕ
  buffer_sizes [] = []
  buffer_sizes (start ∷ cs) = buffer_sizes cs
  buffer_sizes (stop ∷ cs) = buffer_sizes cs
  buffer_sizes (send payload count element_size dest ∷ cs) =
      (count * element_size) ∷ buffer_sizes cs
  buffer_sizes (recv buffer offset count element_size source ∷ cs) =
      (count * element_size) ∷ buffer_sizes cs

  -- One copy for each receive, from the buffer that it has.
  abbrev pub receive_copies : ℕ → List (Call A) → List Copy
  receive_copies i [] = []
  receive_copies i (start ∷ cs) = receive_copies i cs
  receive_copies i (stop ∷ cs) = receive_copies i cs
  receive_copies i (send payload count element_size dest ∷ cs) = receive_copies (suc i) cs
  receive_copies i (recv buffer offset count element_size source ∷ cs) =
      record {
        target = record { buffer = buffer; offset = offset };
        source = i;
        bytes = count * element_size;
      }
      ∷ receive_copies (suc i) cs

  -- The calls between a start and a stop.
  abbrev pub IsGroup : List (Call A) → Type 0
  IsGroup [] = Unit {0}
  IsGroup (start ∷ cs) = ⊥
  IsGroup (stop ∷ cs) = ⊥
  IsGroup (send payload count element_size dest ∷ cs) = IsGroup cs
  IsGroup (recv buffer offset count element_size source ∷ cs) = IsGroup cs

-- What the vectors of a communicator hold: the sizes of the buffers, and the copies at the end.
record Holds (s : NcclCommunicator) (sizes : List ℕ) (copies : List Copy) : Type 0 where
  sized : s.comm_buffer_sizes ≡ sizes
  allocated : s.comm_buffers ≡ map aligned_size sizes
  targets : s.recv_buffers ≡ map (λ c. c.target) copies
  sources : s.recv_buffer_idx ≡ map (λ c. c.source) copies

pushed :
    (sizes : List ℕ) (n : ℕ) (buffers : List ℕ)
    → buffers ≡ map aligned_size sizes
    → buffers ++ aligned_size n ∷ [] ≡ map aligned_size (sizes ++ n ∷ [])
pushed sizes n buffers e =
    ap (λ v. v ++ aligned_size n ∷ []) e ∙ sym (map-append aligned_size sizes (n ∷ []))

module _ {A : Type 0} where
  -- The vectors after one more buffer.
  one_more :
      (cs : List (Call A)) (s : NcclCommunicator) (sizes : List ℕ) (n : ℕ)
      (copies copies' : List Copy)
      → Holds s
          ((sizes ++ n ∷ []) ++ buffer_sizes cs)
          (copies ++ receive_copies (length (sizes ++ n ∷ [])) cs)
      → copies ++ receive_copies (suc (length sizes)) cs ≡ copies'
      → Holds s (sizes ++ n ∷ buffer_sizes cs) copies'
  one_more cs s sizes n copies copies' h e =
      subst (Holds s (sizes ++ n ∷ buffer_sizes cs))
        (ap (λ k. copies ++ receive_copies k cs) {x = length (sizes ++ n ∷ [])}
            {y = suc (length sizes)} (omega (arith, length-append sizes (n ∷ [])))
          ∙ e)
        (subst (λ v. Holds s v (copies ++ receive_copies (length (sizes ++ n ∷ [])) cs))
          (append_assoc sizes (n ∷ []) (buffer_sizes cs)) h)

  group-Holds :
      (cs : List (Call A)) (s : NcclCommunicator) (sizes : List ℕ) (copies : List Copy)
      → IsGroup cs
      → Holds s sizes copies
      → Holds
          (nccl_calls cs s)
          (sizes ++ buffer_sizes cs)
          (copies ++ receive_copies (length sizes) cs)
  unfolding nccl_calls nccl_call
  group-Holds [] s sizes copies g h =
      subst (λ v. Holds s v (copies ++ [])) (sym (append-nil sizes))
        (subst (Holds s sizes) (sym (append-nil copies)) h)
  group-Holds (start ∷ cs) s sizes copies g h = absurd g
  group-Holds (stop ∷ cs) s sizes copies g h = absurd g
  group-Holds (send payload count element_size dest ∷ cs) s sizes copies g h =
      one_more cs _ sizes (count * element_size) copies _
        (group-Holds cs _ (sizes ++ count * element_size ∷ []) copies g (record {
          sized = ap (λ v. v ++ count * element_size ∷ []) h.sized;
          allocated = pushed sizes (count * element_size) s.comm_buffers h.allocated;
          targets = h.targets;
          sources = h.sources;
        }))
        refl
  group-Holds (recv buffer offset count element_size source ∷ cs) s sizes copies g h =
      one_more cs _ sizes (count * element_size) (copies ++ here ∷ []) _
        (group-Holds cs _ (sizes ++ count * element_size ∷ []) (copies ++ here ∷ []) g (record {
          sized = ap (λ v. v ++ count * element_size ∷ []) h.sized;
          allocated = pushed sizes (count * element_size) s.comm_buffers h.allocated;
          targets =
              ap (λ v. v ++ here.target ∷ []) h.targets
              ∙ sym (map-append (λ c. c.target) copies (here ∷ []));
          sources =
              ap₂ (λ v k. v ++ k ∷ []) h.sources
                (ap length h.allocated ∙ length-map aligned_size sizes)
              ∙ sym (map-append (λ c. c.source) copies (here ∷ []));
        }))
        (append_assoc copies (here ∷ []) (receive_copies (suc (length sizes)) cs))
    where
      here : Copy
      here = record {
        target = record { buffer = buffer; offset = offset };
        source = length sizes;
        bytes = count * element_size;
      }

  -- The buffer of a receive has the size of the receive.
  copied_bytes :
      (cs : List (Call A)) (before : List ℕ) (n : ℕ)
      → length before ≡ n
      → map (λ c. get_or (before ++ buffer_sizes cs) c.source 0) (receive_copies n cs)
        ≡ map (λ c. c.bytes) (receive_copies n cs)
  copied_bytes [] before n e = refl
  copied_bytes (start ∷ cs) before n e = copied_bytes cs before n e
  copied_bytes (stop ∷ cs) before n e = copied_bytes cs before n e
  copied_bytes (send payload count element_size dest ∷ cs) before n e =
      ap (λ v. map (λ c. get_or v c.source 0) (receive_copies (suc n) cs))
        (sym (append_assoc before (count * element_size ∷ []) (buffer_sizes cs)))
      ∙ copied_bytes cs (before ++ count * element_size ∷ []) (suc n)
          (omega (arith, e, length-append before (count * element_size ∷ [])))
  copied_bytes (recv buffer offset count element_size source ∷ cs) before n e =
      ap₂ ◌∷◌ (get_or-append before (count * element_size) (buffer_sizes cs) 0 n e) (
        ap (λ v. map (λ c. get_or v c.source 0) (receive_copies (suc n) cs))
          (sym (append_assoc before (count * element_size ∷ []) (buffer_sizes cs)))
        ∙ copied_bytes cs (before ++ count * element_size ∷ []) (suc n)
            (omega (arith, e, length-append before (count * element_size ∷ []))))

  module _ (cs : List (Call A)) (group : IsGroup cs) where
    after_group : Holds (nccl_calls cs cleared) (buffer_sizes cs) (receive_copies 0 cs)
    after_group =
        group-Holds cs cleared [] [] group
          (record { sized = refl; allocated = refl; targets = refl; sources = refl })

    no_copy : Copy
    no_copy = record { target = no_place; source = 0; bytes = 0 }

    -- At the end of a group each receive gets its bytes from the buffer that was received for it.
    pub stop_copies_lem : stop_copies (nccl_calls cs cleared) ≡ receive_copies 0 cs
    unfolding stop_copies
    stop_copies_lem =
        ap
          (λ t.
            copies_of t (nccl_calls cs cleared).recv_buffer_idx
              (nccl_calls cs cleared).comm_buffer_sizes)
          after_group.targets
        ∙ ap₂ (copies_of (map (λ c. c.target) copies)) after_group.sources after_group.sized
        ∙ map-range_ext _ (λ k. get_or copies k no_copy) 0 (length (map (λ c. c.target) copies))
            (λ k _ q. entry k (omega (arith, length-map (λ (c : Copy). c.target) copies)))
        ∙ ap (λ n. map (λ k. get_or copies k no_copy) (range 0 n))
            (length-map (λ c. c.target) copies)
        ∙ map-get_or-range (λ c. c) no_copy copies
        ∙ map_self copies
      where
        copies : List Copy
        copies = receive_copies 0 cs

        copy : Place → ℕ → ℕ → Copy
        copy t s b = record { target = t; source = s; bytes = b }

        copies_of : List Place → List ℕ → List ℕ → List Copy
        copies_of targets sources sizes =
            map
              (λ ibuffer.
                copy (get_or targets ibuffer no_place) (get_or sources ibuffer 0)
                  (get_or sizes (get_or sources ibuffer 0) 0))
              (range 0 (length targets))

        bytes_at :
            (k : ℕ)
            → k < length copies
            → get_or (buffer_sizes cs) (get_or copies k no_copy).source 0
              ≡ (get_or copies k no_copy).bytes
        bytes_at k h =
            sym (get_or-map (λ c. get_or (buffer_sizes cs) c.source 0) copies k no_copy 0 h)
            ∙ ap (λ v. get_or v k 0) (copied_bytes cs [] 0 refl)
            ∙ get_or-map (λ c. c.bytes) copies k no_copy 0 h

        entry :
            (k : ℕ)
            → k < length copies
            → copy
                (get_or (map (λ c. c.target) copies) k no_place)
                (get_or (map (λ c. c.source) copies) k 0)
                (get_or (buffer_sizes cs) (get_or (map (λ c. c.source) copies) k 0) 0)
              ≡ get_or copies k no_copy
        entry k h =
            ap₂ (λ t s. copy t s (get_or (buffer_sizes cs) s 0))
              (get_or-map (λ c. c.target) copies k no_copy no_place h)
              (get_or-map (λ c. c.source) copies k no_copy 0 h)
            ∙ ap (copy (get_or copies k no_copy).target (get_or copies k no_copy).source)
                (bytes_at k h)

    -- At the end of a group the buffers are deallocated with the sizes that they were allocated with.
    pub stop_deallocates_lem :
        stop_deallocates (nccl_calls cs cleared) ≡ (nccl_calls cs cleared).comm_buffers
    unfolding stop_deallocates
    stop_deallocates_lem =
        ap₂ (λ sizes n. map (λ ibuffer. aligned_size (get_or sizes ibuffer 0)) (range 0 n))
          after_group.sized
          (ap length after_group.allocated ∙ length-map aligned_size (buffer_sizes cs))
        ∙ map-get_or-range aligned_size 0 (buffer_sizes cs)
        ∙ sym after_group.allocated
