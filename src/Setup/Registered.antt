-- ===== src/Setup/Registered.antt =====
-- registered_memory_resource.hpp: memory that is registered with UCX while it is allocated.
use mathlib.Core.Bool.{true≢false}
use mathlib.Core.Option.{some-injective}
use distributed_join.Prelude.{
  ℕ, ◌≡◌, refl, sym, ap, ◌∙◌, Bool, true, false, Option, none, some, ◌>>=◌, List, [], ◌∷◌, ◌==◌,
  if◌then◌else◌, if_true, if_false, inl, inr, Bool-cases, ==_iff, arith,
}

-- What is asked of the resource: an allocation with the address and the handle that `cudaMalloc`
-- and `register_buffer` give, or a deallocation.
pub data Request : Type 0 where
  allocate : (p bytes handle : ℕ) → Request
  deallocate : (p : ℕ) → Request

-- The calls of UCX and CUDA.
pub data UcxCall : Type 0 where
  register_buffer : (p bytes : ℕ) → UcxCall
  deregister_buffer : (handle : ℕ) → UcxCall
  cuda_free : (p : ℕ) → UcxCall

-- `registered_handles`, its last entry for an address first.
unfoldable pub find : ℕ → List (ℕ × ℕ) → Option ℕ
find p [] = none
find p ((q, h) ∷ rest) = if q == p then some h else find p rest

-- `do_allocate` and `do_deallocate`: `none` where the address has no handle, which the code reads
-- all the same.
unfoldable pub do_request : List (ℕ × ℕ) → Request → Option (List (ℕ × ℕ) × List UcxCall)
do_request registered_handles (allocate p bytes handle) =
    some ((p, handle) ∷ registered_handles, register_buffer p bytes ∷ [])
do_request registered_handles (deallocate p) = find p registered_handles >>= λ handle.
    some (registered_handles, deregister_buffer handle ∷ cuda_free p ∷ [])

unfoldable pub do_requests : List (ℕ × ℕ) → List Request → Option (List (ℕ × ℕ))
unfolding do_request
do_requests registered_handles [] = some registered_handles
do_requests registered_handles (x ∷ xs) =
    do_request registered_handles x >>= λ r. do_requests r.0 xs

-- An allocation, and where its address is.
unfoldable pub allocates_at : ℕ → Request → Bool
allocates_at p (allocate q bytes handle) = q == p
allocates_at p (deallocate q) = false

unfoldable pub allocate_again : ℕ → List Request → Bool
allocate_again p [] = false
allocate_again p (x ∷ xs) = if allocates_at p x then true else allocate_again p xs

abbrev released : List (ℕ × ℕ) → ℕ → ℕ → List (ℕ × ℕ) × List UcxCall
released m q handle = (m, deregister_buffer handle ∷ cuda_free q ∷ [])

module _ (p : ℕ) where
  deallocated :
      (o : Option ℕ) (q : ℕ) (m : List (ℕ × ℕ)) (xs : List Request) (later : List (ℕ × ℕ))
      → ((o >>= λ handle. some (released m q handle)) >>= λ r. do_requests r.0 xs) ≡ some later
      → do_requests m xs ≡ some later
  deallocated none q m xs later e = ground arith
  deallocated (some handle) q m xs later e = e

  kept :
      (h : ℕ) (xs : List Request) (m later : List (ℕ × ℕ))
      → find p m ≡ some h
      → allocate_again p xs ≡ false
      → do_requests m xs ≡ some later
      → find p later ≡ some h
  unfolding do_requests do_request allocate_again allocates_at find
  kept h [] m later at other e = ap (find p) (sym (some-injective m later e)) ∙ at
  kept h (allocate q bytes handle ∷ xs) m later at other e = elim (Bool-cases (q == p)) [
    | inl same ↦ absurd (true≢false (sym (if_true _ _ same) ∙ other))
    | inr apart ↦
        kept h xs ((q, handle) ∷ m) later (if_false _ _ apart ∙ at)
          (sym (if_false _ _ apart) ∙ other) e
  ]
  kept h (deallocate q ∷ xs) m later at other e =
      kept h xs m later at other (deallocated (find q m) q m xs later e)

  -- If requests after an allocation do not allocate at its address again, and each deallocation
  -- among them finds a handle, the deallocation of the address deregisters the handle that the
  -- allocation registered, also where the address had another one before.
  pub deregistered :
      (registered_handles : List (ℕ × ℕ)) (bytes handle : ℕ) (xs : List Request)
      (later : List (ℕ × ℕ))
      → allocate_again p xs ≡ false
      → do_requests registered_handles (allocate p bytes handle ∷ xs) ≡ some later
      → do_request later (deallocate p) ≡ some (later, deregister_buffer handle ∷ cuda_free p ∷ [])
  unfolding do_requests do_request find
  deregistered m bytes handle xs later other e =
      ap (λ (o : Option ℕ). o >>= λ handle. some (released later p handle))
        (kept handle xs ((p, handle) ∷ m) later (if_true _ _ ((==_iff p p).1 refl)) other e)
