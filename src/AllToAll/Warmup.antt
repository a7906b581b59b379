-- ===== src/AllToAll/Warmup.antt =====
-- all_to_all_comm.cpp: `warmup_all_to_all`, whose buffers are allocated and deallocated by hand.
use distributed_join.Prelude.{
  ℕ, zero, suc, ◌+◌, ◌/◌, ◌<◌, ◌≡◌, refl, ap, ◌∙◌, arith, Bool, true, false, not, ◌&&◌, List, [],
  ◌∷◌, ◌++◌, ◌==◌, leb, ltb, if◌then◌else◌, replicate,
}
use distributed_join.Prelude.Ranges.{range, flat_map}
use distributed_join.Communicator.{Call, start, stop, send, recv}

-- Which entries of `send_buffer`, and likewise of `recv_buffer`, are allocated.
abbrev pub Allocated : Type 0
Allocated = ℕ → Bool

abbrev pub mark : ℕ → Bool → Allocated → Allocated
mark irank b m i = if irank == i then b else m i

unfoldable pub allocate_loop : ℕ → List ℕ → Allocated → Allocated
allocate_loop mpi_rank [] m = m
allocate_loop mpi_rank (irank ∷ is) m =
    allocate_loop mpi_rank is (if irank == mpi_rank then m else mark irank true m)

unfoldable pub deallocate_loop : List ℕ → Allocated → Allocated
deallocate_loop [] m = m
deallocate_loop (irank ∷ is) m = deallocate_loop is (mark irank false m)

-- The calls on the communicator; the buffers for the receives are the rank's buffers.
unfoldable pub warmup_calls : {A : Type 0} → A → ℕ → ℕ → List (Call A)
warmup_calls junk mpi_rank mpi_size =
    let bytes = 10000000 / mpi_size in
    start
    ∷ (flat_map
          (λ irank.
            if irank == mpi_rank then [] else send (replicate bytes junk) bytes 1 irank ∷ [])
          (range 0 mpi_size)
        ++ (flat_map (λ irank. if irank == mpi_rank then [] else recv irank 0 bytes 1 irank ∷ [])
              (range 0 mpi_size)
            ++ stop ∷ []))

-- The buffers at the end of `warmup_all_to_all`.
unfoldable pub warmup_all_to_all : ℕ → ℕ → Allocated
warmup_all_to_all mpi_rank mpi_size =
    deallocate_loop (range 0 mpi_rank) (allocate_loop mpi_rank (range 0 mpi_size) (λ irank. false))

if_at : (c : Bool) (f g : Allocated) (i : ℕ) → (if c then f else g) i ≡ (if c then f i else g i)
if_at true f g i = refl
if_at false f g i = refl

allocated_by :
    (r b n i : ℕ) (m : Allocated)
    → allocate_loop r (range b n) m i
      ≡ (if (leb b i && ltb i (b + n)) && not (i == r) then true else m i)
unfolding allocate_loop
allocated_by r b zero i m = ground arith
allocated_by r b (suc n) i m =
    allocated_by r (suc b) n i (if b == r then m else mark b true m)
    ∙ ap (λ v. if (leb (suc b) i && ltb i (suc b + n)) && not (i == r) then true else v)
        (if_at (b == r) m (mark b true m) i)
    ∙ ground arith

freed_by :
    (b n i : ℕ) (m : Allocated)
    → deallocate_loop (range b n) m i ≡ (if leb b i && ltb i (b + n) then false else m i)
unfolding deallocate_loop
freed_by b zero i m = ground arith
freed_by b (suc n) i m = freed_by (suc b) n i (mark b false m) ∙ ground arith

-- At the end a rank still has the buffers for the ranks above it.
pub warmup_all_to_all_lem : (r p i : ℕ) → r < p → i < p → warmup_all_to_all r p i ≡ ltb r i
unfolding warmup_all_to_all
warmup_all_to_all_lem r p i h q =
    freed_by 0 r i (allocate_loop r (range 0 p) (λ irank. false))
    ∙ ground (arith, allocated_by r 0 p i (λ irank. false))
