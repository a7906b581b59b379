-- ===== src/Nvlink/Divisors.antt =====
-- What `get_nvl_partition_size` returns: a divisor of the number of ranks, and which one.
use distributed_join.Prelude.{
  ℕ, zero, suc, ◌+◌, ◌*◌, ◌%◌, ◌≤◌, ◌<◌, ◌≡◌, arith, false, ◌&&◌, leb, ◌==◌, inl, inr, ℕ_discrete,
  if_true, if_false, Bool-cases, subst, max, sym, dec_lt,
}
use distributed_join.Nvlink.{ceil_sqrt_from, ceil_sqrt, partition_size_from, get_nvl_partition_size}

-- A divisor of `n` in the domain of `d` ranks.
abbrev pub IsFit : ℕ → ℕ → ℕ → Type 0
IsFit n d k = (0 < k) × (n % k ≡ 0) × (k ≤ d)

-- `v` is a divisor of `n`, not larger than `d` unless `d` is 0, and the largest fit up to `k`.
pub record IsLargestFit (n d k v : ℕ) : Type 0 where
  pub positive : 0 < v
  pub divides : n % v ≡ 0
  pub within : 0 < d → v ≤ d
  pub largest : (j : ℕ) → IsFit n d j → j ≤ k → j ≤ v
  pub below : v ≤ max k 1

loop-IsLargestFit : (n d k : ℕ) → IsLargestFit n d k (partition_size_from n d k)
unfolding partition_size_from
loop-IsLargestFit n d zero = record {
  positive = omega arith;
  divides = omega arith;
  within = λ h. omega arith;
  largest = λ j f h. omega arith;
  below = omega arith;
}
loop-IsLargestFit n d (suc k) =
    let smaller : IsLargestFit n d k (partition_size_from n d k) = loop-IsLargestFit n d k in
    elim (Bool-cases ((n % suc k == 0) && leb (suc k) d)) [
      | inl fits ↦ subst (IsLargestFit n d (suc k)) (sym (if_true _ _ fits)) (record {
        positive = omega arith;
        divides = ground arith;
        within = λ h. ground arith;
        largest = λ j f h. h;
        below = omega arith;
      })
      | inr not_fits ↦ subst (IsLargestFit n d (suc k)) (sym (if_false _ _ not_fits)) (record {
        positive = smaller.positive;
        divides = smaller.divides;
        within = smaller.within;
        largest = λ j f h. elim (ℕ_discrete j (suc k)) [
          | yes e ↦ absurd (missed j f e not_fits)
          | no ne ↦ smaller.largest j f (omega arith)
        ];
        below = omega (arith, smaller.below);
      })
    ]
  where
    missed : (j : ℕ) → IsFit n d j → j ≡ suc k → ((n % suc k == 0) && leb (suc k) d) ≡ false → ⊥
    missed j f e not_fits =
        let g : IsFit n d (suc k) = subst (IsFit n d) e f in ground (arith, g.1, g.2)

-- The search for the square root ends, and takes the least number.
ceil_from :
    (n fuel s : ℕ)
    → n ≤ (s + fuel) * (s + fuel)
    → (n ≤ ceil_sqrt_from n fuel s * ceil_sqrt_from n fuel s)
      × ((j : ℕ) → s ≤ j → n ≤ j * j → ceil_sqrt_from n fuel s ≤ j)
unfolding ceil_sqrt_from
ceil_from n zero s h = (subst (λ m. n ≤ m * m) {x = s + 0} {y = s} (omega arith) h, λ j p q. p)
ceil_from n (suc fuel) s h =
    let next : (n ≤ ceil_sqrt_from n fuel (suc s) * ceil_sqrt_from n fuel (suc s))
        × ((j : ℕ) → suc s ≤ j → n ≤ j * j → ceil_sqrt_from n fuel (suc s) ≤ j) =
      ceil_from n fuel (suc s)
        (subst (λ m. n ≤ m * m) {x = s + suc fuel} {y = suc s + fuel} (omega arith) h) in
    elim (Bool-cases (leb n (s * s))) [
      | inl reached ↦ subst IsCeil (sym (if_true _ _ reached)) (ground arith, λ j p q. p)
      | inr further ↦ subst IsCeil (sym (if_false _ _ further)) (
        next.0,
        λ j p q. elim (ℕ_discrete j s) [
          | yes e ↦ absurd (beyond j e q further)
          | no ne ↦ next.1 j (omega arith) q
        ],
      )
    ]
  where
    IsCeil : ℕ → Type 0
    IsCeil v = (n ≤ v * v) × ((j : ℕ) → s ≤ j → n ≤ j * j → v ≤ j)

    beyond : (j : ℕ) → j ≡ s → n ≤ j * j → leb n (s * s) ≡ false → ⊥
    beyond j e q further = let at_s : n ≤ s * s = subst (λ m. n ≤ m * m) e q in ground arith

-- `ceil_sqrt` is the least number whose square is not below its argument.
pub ceil_sqrt_lem :
    (n : ℕ) → (n ≤ ceil_sqrt n * ceil_sqrt n) × ((j : ℕ) → n ≤ j * j → ceil_sqrt n ≤ j)
unfolding ceil_sqrt
ceil_sqrt_lem n =
    let found = ceil_from n n 0 (within n) in (found.0, λ j q. found.1 j (omega arith) q)
  where
    within : (n : ℕ) → n ≤ (0 + n) * (0 + n)
    within zero = omega arith
    within (suc n) = grind arith

loop_only : (n d : ℕ) → d < n → get_nvl_partition_size n d ≡ partition_size_from n d (ceil_sqrt n)
unfolding get_nvl_partition_size
loop_only n d h = if_false n _ (ground arith)

whole_world : (n d : ℕ) → 0 < n → ¬ (d < n) → IsFit n d (get_nvl_partition_size n d)
unfolding get_nvl_partition_size
whole_world n d p more =
    subst (IsFit n d)
      (sym (if_true {b = leb n d} n (partition_size_from n d (ceil_sqrt n)) (ground arith)))
      (p, grind arith, omega arith)

-- The group size divides the number of ranks, and fits in the domain.
pub get_nvl_partition_size-IsFit :
    (n d : ℕ) → 0 < n → 0 < d → IsFit n d (get_nvl_partition_size n d)
get_nvl_partition_size-IsFit n d p q = elim (dec_lt d n) [
  | yes less ↦
      let found : IsLargestFit n d (ceil_sqrt n) (partition_size_from n d (ceil_sqrt n)) =
        loop-IsLargestFit n d (ceil_sqrt n) in
      rw (loop_only n d less) (found.positive, found.divides, found.within q)
  | no more ↦ whole_world n d p more
]

-- With fewer ranks in a domain than in the world, the group size is the largest divisor of the
-- number of ranks among those that fit in the domain and are not above the rounded up square root.
pub get_nvl_partition_size-largest :
    (n d j : ℕ) → d < n → IsFit n d j → j ≤ ceil_sqrt n → j ≤ get_nvl_partition_size n d
get_nvl_partition_size-largest n d j h f q =
    rw (loop_only n d h) ((loop-IsLargestFit n d (ceil_sqrt n)).largest j f q)

-- A divisor that fits in the domain, but above the rounded up square root, is larger than the group
-- size.
pub get_nvl_partition_size-missed :
    (n d j : ℕ) → d < n → IsFit n d j → ceil_sqrt n < j → 1 < j → get_nvl_partition_size n d < j
get_nvl_partition_size-missed n d j h f q p =
    rw (loop_only n d h) (omega (arith, (loop-IsLargestFit n d (ceil_sqrt n)).below))
