-- ===== src/Ucx/Cache/Groups.antt =====
-- A group of calls takes communication buffers and gives them back.
use distributed_join.Prelude.{
  ℕ, zero, suc, ◌≤◌, ◌≡◌, refl, sym, ap, ◌∙◌, arith, Bool, true, false, Option, none, some, List,
  [], ◌∷◌, ◌++◌, length, take, drop, leb, if◌then◌else◌, if_true, if_false, append_assoc,
  append-nil, length-append, ◌>>=◌, take-append-drop,
}
use distributed_join.Prelude.Ranges.{range, flat_map}
use distributed_join.Communicator.{Call, start, stop, send, recv}
use distributed_join.Ucx.Cache.{BufferCache, take_buffer, waitall, cache_call, cache_calls}
use distributed_join.Prelude.Perms.{same-Perm}
use mathlib.Core.List as List
use mathlib.Core.List.{Perm}

abbrev holding : BufferCache → List ℕ → List ℕ → BufferCache
holding s cache pending = record s { buffer_cache = cache; pending_requests = pending }

abbrev outcome : BufferCache → List ℕ → List ℕ → ℕ → Option BufferCache
outcome s cache pending k =
    if leb k (length cache) then some (holding s (drop k cache) (pending ++ take k cache)) else none

outcome-suc :
    (s : BufferCache) (b : ℕ) (cache pending : List ℕ) (k : ℕ)
    → outcome s cache (pending ++ b ∷ []) k ≡ outcome s (b ∷ cache) pending (suc k)
outcome-suc s b cache pending k =
    ap (λ p. if leb k (length cache) then some (holding s (drop k cache) p) else none)
      (append_assoc pending (b ∷ []) (take k cache))
    ∙ ap (λ t. if t then some (holding s (drop k cache) (pending ++ b ∷ take k cache)) else none)
        (tests k (length cache))
  where
    tests : (k n : ℕ) → leb k n ≡ leb (suc k) (suc n)
    tests k n = ground arith

zero_le : (n : ℕ) → leb 0 n ≡ true
zero_le n = ground arith

enough : (a b : ℕ) → a ≤ b → leb a b ≡ true
enough a b h = ground arith

none_left : (k : ℕ) → leb (suc k) 0 ≡ false
none_left k = ground arith

module _ {A : Type 0} where
  -- Sends and receives, without a start or stop.
  abbrev pub Transfers : List (Call A) → Type 0
  Transfers [] = Unit {0}
  Transfers (start ∷ cs) = ⊥
  Transfers (stop ∷ cs) = ⊥
  Transfers (send payload count element_size dest ∷ cs) = Transfers cs
  Transfers (recv buffer offset count element_size source ∷ cs) = Transfers cs

  taken :
      (cs : List (Call A)) (s : BufferCache) (cache pending : List ℕ)
      → Transfers cs
      → cache_calls cs (holding s cache pending) ≡ outcome s cache pending (length cs)
  unfolding cache_calls take_buffer
  taken [] s cache pending h = sym (
      if_true _ _ (zero_le (length cache))
      ∙ ap (λ p. some (holding s cache p)) (append-nil pending))
  taken (start ∷ cs) s cache pending h = absurd h
  taken (stop ∷ cs) s cache pending h = absurd h
  taken (send payload count element_size dest ∷ cs) s [] pending h =
      sym (if_false _ _ (none_left (length cs)))
  taken (send payload count element_size dest ∷ cs) s (b ∷ cache) pending h =
      taken cs s cache (pending ++ b ∷ []) h ∙ outcome-suc s b cache pending (length cs)
  taken (recv buffer offset count element_size source ∷ cs) s [] pending h =
      sym (if_false _ _ (none_left (length cs)))
  taken (recv buffer offset count element_size source ∷ cs) s (b ∷ cache) pending h =
      taken cs s cache (pending ++ b ∷ []) h ∙ outcome-suc s b cache pending (length cs)

  pub cache_calls-append :
      (cs ds : List (Call A)) (s : BufferCache)
      → cache_calls (cs ++ ds) s ≡ (cache_calls cs s >>= cache_calls ds)
  unfolding cache_calls
  cache_calls-append [] ds s = refl
  cache_calls-append (c ∷ cs) ds s = again (cache_calls-append cs ds) (cache_call c s)
    where
      again :
          ((t : BufferCache) → cache_calls (cs ++ ds) t ≡ (cache_calls cs t >>= cache_calls ds))
          → (o : Option BufferCache)
          → (o >>= cache_calls (cs ++ ds)) ≡ ((o >>= cache_calls cs) >>= cache_calls ds)
      again ih none = refl
      again ih (some t) = ih t

  abbrev pub grouped_calls : List (Call A) → List (Call A)
  grouped_calls cs = start ∷ (cs ++ stop ∷ [])

  -- A group of sends and receives between a start and a stop takes one buffer for each and gives them
  -- back in the order in which it took them; it fails if there are fewer buffers.
  pub grouped_calls_lem :
      (cs : List (Call A)) (s : BufferCache)
      → Transfers cs
      → cache_calls (grouped_calls cs) s ≡ (
          if leb (length cs) (length s.buffer_cache)
          then some (record s {
            buffer_cache = drop (length cs) s.buffer_cache ++ take (length cs) s.buffer_cache;
            pending_requests = take (length cs) s.buffer_cache;
          })
          else none)
  unfolding cache_calls waitall
  grouped_calls_lem cs s h =
      cache_calls-append cs (stop ∷ []) (holding s s.buffer_cache [])
      ∙ ap (λ o. o >>= cache_calls {A = A} (stop ∷ [])) (taken cs s s.buffer_cache [] h)
      ∙ by_test (leb (length cs) (length s.buffer_cache))
          (holding s (drop (length cs) s.buffer_cache) (take (length cs) s.buffer_cache))
    where
      by_test :
          (b : Bool) (t : BufferCache)
          → ((if b then some t else none) >>= cache_calls {A = A} (stop ∷ []))
            ≡ (if b then some (waitall t t.pending_requests) else none)
      by_test true t = refl
      by_test false t = refl

  -- With enough buffers the cache has the same ones after the group.
  pub grouped_calls-Perm :
      (cs : List (Call A)) (s : BufferCache)
      → Transfers cs
      → length cs ≤ length s.buffer_cache
      → (t : BufferCache) × (cache_calls (grouped_calls cs) s ≡ some t)
        × Perm t.buffer_cache s.buffer_cache
        × (t.comm_buffer_size ≡ s.comm_buffer_size)
  grouped_calls-Perm cs s h k = (
    _,
    grouped_calls_lem cs s h ∙ if_true _ _ (enough _ _ k),
    List.Perm.trans
        (List.perm_append_comm (drop (length cs) s.buffer_cache) (take (length cs) s.buffer_cache))
        (same-Perm (take-append-drop (length cs) s.buffer_cache)),
    refl,
  )

  pub Transfers-append :
      (cs ds : List (Call A)) → Transfers cs → Transfers ds → Transfers (cs ++ ds)
  Transfers-append [] ds h k = k
  Transfers-append (start ∷ cs) ds h k = absurd h
  Transfers-append (stop ∷ cs) ds h k = absurd h
  Transfers-append (send payload count element_size dest ∷ cs) ds h k = Transfers-append cs ds h k
  Transfers-append (recv buffer offset count element_size source ∷ cs) ds h k =
      Transfers-append cs ds h k

  -- A loop that makes one transfer at most in each of `n` rounds.
  pub loop_of_Transfers :
      (f : ℕ → List (Call A)) (i n : ℕ)
      → ((k : ℕ) → Transfers (f k) × (length (f k) ≤ 1))
      → Transfers (flat_map f (range i n)) × (length (flat_map f (range i n)) ≤ n)
  loop_of_Transfers f i zero each = (tt, omega arith)
  loop_of_Transfers f i (suc n) each =
      let (transfers, bound) = loop_of_Transfers f (suc i) n each in
      (
        Transfers-append (f i) _ (each i).0 transfers,
        omega (arith, (each i).1, bound, length-append (f i) (flat_map f (range (suc i) n))),
      )
