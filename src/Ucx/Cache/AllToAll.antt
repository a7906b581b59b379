-- ===== src/Ucx/Cache/AllToAll.antt =====
-- The calls of `all_to_all_comm` and of the warm-up on the buffers that `setup` asks for.
use distributed_join.Prelude.{
  ℕ, zero, suc, ◌*◌, ◌≤◌, ◌≡◌, refl, ap, ap₂, ◌∙◌, arith, Bool, true, false, not, ◌&&◌, some, List,
  [], ◌∷◌, ◌++◌, length, get_or, if◌then◌else◌, length-append, length-map, ◌>>=◌, ◌==◌,
}
use distributed_join.Prelude.Ranges.{range, flat_map, length-range}
use distributed_join.Prelude.Perms.{length-Perm}
use distributed_join.Prelude.Slices.{slice}
use distributed_join.Prelude.Segments.{diffs}
use distributed_join.Group.{CommunicationGroup, size, get_global_rank}
use distributed_join.Communicator.{Call, send, recv}
use distributed_join.Compression.{TypeId, Nvcomp}
use distributed_join.AllToAll.{send_data_by_offset, recv_data_by_offset}
use distributed_join.AllToAll.Messages.{Wire, wire_calls}
use distributed_join.AllToAll.Comm.{AllToAllCommBuffer, buffers_calls, wire, nth}
use distributed_join.Ucx.Cache.{BufferCache, setup_cache, cache_calls, deallocated_bytes}
use distributed_join.Ucx.Cache.Groups.{
  Transfers, Transfers-append, loop_of_Transfers, grouped_calls-Perm, cache_calls-append,
}
use mathlib.Core.List as List
use mathlib.Core.List.{Perm}

length-setup_cache :
    (cache_start_addr ncaches buffer_size : ℕ)
    → length (setup_cache cache_start_addr ncaches buffer_size).buffer_cache ≡ ncaches
unfolding setup_cache
length-setup_cache cache_start_addr ncaches buffer_size =
    length-map _ (range 0 ncaches) ∙ length-range 0 ncaches

module _ {A : Type 0} where
  unless :
      (b : Bool) (c : Call A)
      → Transfers (c ∷ [])
      → Transfers (if b then [] else c ∷ []) × (length (if b then [] else c ∷ []) ≤ 1)
  unless true c h = (tt, omega arith)
  unless false c h = (h, omega arith)

  abbrev Few : ℕ → List (Call A) → Type 0
  Few n cs = Transfers cs × (length cs ≤ n)

  sends-Few :
      (items : List A) (offset : List ℕ) (item_size : ℕ) (g : CommunicationGroup) (mpi_rank : ℕ)
      (self_send : Bool)
      → Few (size g) (send_data_by_offset items offset item_size g mpi_rank self_send)
  unfolding send_data_by_offset
  sends-Few items offset item_size g mpi_rank self_send =
      loop_of_Transfers
        (λ k.
          if not self_send && (get_global_rank g k == mpi_rank)
          then []
          else send (slice items (get_or offset k 0 * item_size) (diffs offset k * item_size))
              (diffs offset k) item_size (get_global_rank g k)
            ∷ [])
        0 (size g) (λ k. unless (not self_send && (get_global_rank g k == mpi_rank)) _ tt)

  receives-Few :
      (buffer : ℕ) (x : Wire A) (g : CommunicationGroup) (mpi_rank : ℕ) (self_recv : Bool)
      → Few
          (size g)
          (recv_data_by_offset {A = A} buffer x.recv_offsets x.item_size g mpi_rank self_recv)
  unfolding recv_data_by_offset
  receives-Few buffer x g mpi_rank self_recv =
      loop_of_Transfers
        (λ k.
          if not self_recv && (mpi_rank == get_global_rank g k)
          then []
          else recv buffer (get_or x.recv_offsets k 0 * x.item_size) (diffs x.recv_offsets k)
              x.item_size (get_global_rank g k)
            ∷ [])
        0 (size g) (λ k. unless (not self_recv && (mpi_rank == get_global_rank g k)) _ tt)

  abbrev transfers : CommunicationGroup → ℕ → Bool → ℕ → Wire A → List (Call A)
  transfers g mpi_rank include b x =
      send_data_by_offset x.items x.send_offsets x.item_size g mpi_rank include
      ++ recv_data_by_offset b x.recv_offsets x.item_size g mpi_rank include

  transfers-Few :
      (g : CommunicationGroup) (mpi_rank : ℕ) (include : Bool) (b : ℕ) (x : Wire A)
      → Few (2 * size g) (transfers g mpi_rank include b x)
  transfers-Few g mpi_rank include b x =
      let sends = sends-Few x.items x.send_offsets x.item_size g mpi_rank include in
      let receives = receives-Few b x g mpi_rank include in
      (
        Transfers-append (send_data_by_offset x.items x.send_offsets x.item_size g mpi_rank include)
            (recv_data_by_offset b x.recv_offsets x.item_size g mpi_rank include) sends.0
            receives.0,
        omega (
          arith,
          sends.1,
          receives.1,
          length-append (send_data_by_offset x.items x.send_offsets x.item_size g mpi_rank include)
              (recv_data_by_offset b x.recv_offsets x.item_size g mpi_rank include),
        ),
      )

  -- The cache lasts for a list of calls, and has the same buffers afterwards.
  abbrev pub Lasts : List (Call A) → BufferCache → Type 0
  Lasts cs s =
      (t : BufferCache) × (cache_calls cs s ≡ some t)
      × Perm t.buffer_cache s.buffer_cache
      × (t.comm_buffer_size ≡ s.comm_buffer_size)

  groups_last :
      (f : ℕ → List (Call A)) (i n : ℕ) (s : BufferCache)
      → ((k : ℕ) (t : BufferCache) → length t.buffer_cache ≡ length s.buffer_cache → Lasts (f k) t)
      → Lasts (flat_map f (range i n)) s
  unfolding cache_calls
  groups_last f i zero s each = (s, refl, List.Perm.refl s.buffer_cache, refl)
  groups_last f i (suc n) s each =
      let (t, runs, same, size_kept) = each i s refl in
      let (u, runs', same', size_kept') =
        groups_last f (suc i) n t (λ k v e. each k v (e ∙ length-Perm same)) in
      (
        u,
        cache_calls-append (f i) (flat_map f (range (suc i) n)) s
            ∙ ap (λ o. o >>= cache_calls (flat_map f (range (suc i) n))) runs
            ∙ runs',
        List.Perm.trans same' same,
        size_kept' ∙ size_kept,
      )

  all_to_all-Lasts :
      (nvcomp : Nvcomp A) (size_of : TypeId → ℕ) (junk : A) (g : CommunicationGroup)
      (mpi_rank mpi_size : ℕ) (include : Bool) (bs : List (AllToAllCommBuffer A)) (s : BufferCache)
      → size g ≤ mpi_size
      → length s.buffer_cache ≡ 2 * mpi_size
      → Lasts (buffers_calls nvcomp size_of junk false g mpi_rank include bs) s
  all_to_all-Lasts nvcomp size_of junk g mpi_rank mpi_size include bs s h e =
      groups_last (λ b. wire_calls false g mpi_rank include b (staged b)) 0 (length bs) s
        (λ k t same.
          let few : Few (2 * size g) (transfers g mpi_rank include k (staged k)) =
            transfers-Few g mpi_rank include k (staged k) in
          grouped_calls-Perm (transfers g mpi_rank include k (staged k)) t few.0
            (omega (arith, few.1, same)))
    where
      staged : ℕ → Wire A
      staged b = wire nvcomp size_of junk (nth nvcomp size_of junk bs b)

  -- On a communicator that does not group by batch, with two communication buffers for each rank, the
  -- calls of `all_to_all_comm` in a group that is not larger than the world always find a buffer;
  -- afterwards the cache has the buffers of `setup_cache` again, and `finalize` gives back as many
  -- bytes as were allocated.
  pub cache_lasts :
      (nvcomp : Nvcomp A) (size_of : TypeId → ℕ) (junk : A) (g : CommunicationGroup)
      (mpi_rank mpi_size : ℕ) (include : Bool) (bs : List (AllToAllCommBuffer A))
      (cache_start_addr buffer_size : ℕ)
      → size g ≤ mpi_size
      → let s = setup_cache cache_start_addr (2 * mpi_size) buffer_size in
        (t : BufferCache) × (cache_calls
            (buffers_calls nvcomp size_of junk false g mpi_rank include bs)
            s
          ≡ some t)
        × Perm t.buffer_cache s.buffer_cache
        × (deallocated_bytes t ≡ buffer_size * (2 * mpi_size))
  unfolding deallocated_bytes setup_cache
  cache_lasts nvcomp size_of junk g mpi_rank mpi_size include bs cache_start_addr buffer_size h =
      let (t, runs, same, kept) =
        all_to_all-Lasts nvcomp size_of junk g mpi_rank mpi_size include bs
          (setup_cache cache_start_addr (2 * mpi_size) buffer_size) h
          (length-setup_cache cache_start_addr (2 * mpi_size) buffer_size) in
      (
        t,
        runs,
        same,
        ap₂ ◌*◌ kept
            (length-Perm same ∙ length-setup_cache cache_start_addr (2 * mpi_size) buffer_size),
      )
