-- ===== src/Group/Layout.antt =====
-- Where the ranks of a communication group lie, and that its members agree on it.
use distributed_join.Prelude.{
  ℕ, ◌+◌, ◌-◌, ◌*◌, ◌/◌, ◌%◌, ◌≡◌, refl, sym, ap, ap₂, ◌∙◌, ◌<◌, ◌≤◌, some, arith,
}
use distributed_join.Group.{
  CommunicationGroup, communication_group, size, get_global_rank, get_local_idx,
}

div_mod_of : (m d q r : ℕ) → m ≡ q * d + r → r < d → (m / d ≡ q) × (m % d ≡ r)
div_mod_of m d q r e h = (grind arith, grind arith)

-- A multiple of the stride is divided exactly.
div_of_multiple : (i s : ℕ) → 0 < s → i * s / s ≡ i
div_of_multiple i s h = grind arith

-- `grid` ranks from `q * grid` on hold `n` members of the phase `p`, `stride` apart.
module _ (grid stride n q p : ℕ) (pos : p < stride) (covers : grid ≡ n * stride) where
  within : (i : ℕ) → i < n → p + i * stride < grid
  within i h = grind arith

  member_fields :
      (i : ℕ) → i < n → let m = q * grid + p + i * stride in (m / grid ≡ q) × (m % stride ≡ p)
  member_fields i h = (
    (div_mod_of (q * grid + p + i * stride) grid q (p + i * stride) (omega arith) (within i h)).0,
    (div_mod_of (q * grid + p + i * stride) stride (q * n + i) p
        (ap (λ (t : ℕ). q * t + p + i * stride) covers ∙ omega arith) pos).1,
  )

-- A rank lies in its grid, at a multiple of the stride from its phase.
rank_split :
    (grid stride n rank : ℕ)
    → 0 < stride
    → 0 < grid
    → grid ≡ n * stride
    → let l = rank % grid / stride in
      (rank ≡ rank / grid * grid + rank % stride + l * stride) × (l < n)
rank_split grid stride n rank hs hg covers =
    let e : rank ≡ rank / grid * grid + rank % grid = grind arith in
    let f : rank % grid ≡ rank % grid / stride * stride + rank % grid % stride = grind arith in
    let b : rank % grid < grid = omega arith in
    let g : rank ≡ (rank / grid * n + rank % grid / stride) * stride + rank % grid % stride =
      e
      ∙ ap (λ (t : ℕ). t + rank % grid) (ap (λ (t : ℕ). rank / grid * t) covers)
      ∙ omega (arith, f) in
    let p : rank % stride ≡ rank % grid % stride =
      (div_mod_of rank stride _ (rank % grid % stride) g (omega arith)).1 in
    (omega (arith, e, f, p), grind arith)

abbrev pub group_at : ℕ → ℕ → ℕ → CommunicationGroup
group_at rank grid stride = record {
  mpi_rank = rank;
  group_start = rank / grid * grid + rank % stride;
  grid_size = grid;
  stride = stride;
}

made_divides :
    (rank grid stride : ℕ) {g : CommunicationGroup}
    → communication_group rank grid stride ≡ some g
    → (g ≡ group_at rank grid stride) × (grid % stride ≡ 0)
unfolding communication_group
made_divides rank grid stride made = ground arith

pub made_of_divides :
    (rank grid stride : ℕ)
    → grid % stride ≡ 0
    → communication_group rank grid stride ≡ some (group_at rank grid stride)
unfolding communication_group
made_of_divides rank grid stride e = ground arith

size_covers :
    (rank grid stride : ℕ)
    → 0 < stride
    → grid % stride ≡ 0
    → grid ≡ size (group_at rank grid stride) * stride
unfolding size
size_covers rank grid stride pos e = grind arith

module _ (rank grid stride : ℕ) (g : CommunicationGroup) (pos : 0 < stride) (grid_pos : 0 < grid)
    (made : communication_group rank grid stride ≡ some g) where
  facts : (g ≡ group_at rank grid stride) × (grid % stride ≡ 0)
  facts = made_divides rank grid stride made

  pub covers : grid ≡ size g * stride
  covers = rw facts.0 (size_covers rank grid stride pos facts.1)

  start_eq : g.group_start ≡ rank / grid * grid + rank % stride
  start_eq = ap (λ (x : CommunicationGroup). x.group_start) facts.0

  stride_eq : g.stride ≡ stride
  stride_eq = ap (λ (x : CommunicationGroup). x.stride) facts.0

  rank_eq : g.mpi_rank ≡ rank
  rank_eq = ap (λ (x : CommunicationGroup). x.mpi_rank) facts.0

  split :
      (rank ≡ rank / grid * grid + rank % stride + rank % grid / stride * stride)
      × (rank % grid / stride < size g)
  split = rank_split grid stride (size g) rank pos grid_pos covers

  -- The difference that the code divides is a multiple of the stride.
  local_of_offset : (m i : ℕ) → m ≡ g.group_start + i * stride → (m - g.group_start) / g.stride ≡ i
  local_of_offset m i e =
      ap (λ (t : ℕ). (m - g.group_start) / t) stride_eq
      ∙ ap (λ (t : ℕ). t / stride) (omega arith)
      ∙ div_of_multiple i stride pos

  pub own_local : get_local_idx g ≡ rank % grid / stride
  unfolding get_local_idx
  own_local =
      local_of_offset g.mpi_rank (rank % grid / stride) (omega (arith, split.0, start_eq, rank_eq))

  pub global_eq : (i : ℕ) → get_global_rank g i ≡ rank / grid * grid + rank % stride + i * stride
  unfolding get_global_rank
  global_eq i = ap₂ (λ (a b : ℕ). a + i * b) start_eq stride_eq

  -- The rank that makes the group is its member at its own local index.
  pub global-local : (get_global_rank g (get_local_idx g) ≡ rank) × (get_local_idx g < size g)
  global-local = (
    global_eq (get_local_idx g)
        ∙ ap (λ (t : ℕ). rank / grid * grid + rank % stride + t * stride) own_local
        ∙ sym split.0,
    rw own_local split.1,
  )

  -- A member makes the same group, and finds itself at the index by which the others name it.
  pub members_agree :
      (i : ℕ)
      → i < size g
      → let m = get_global_rank g i in
        (communication_group m grid stride ≡ some (record g { mpi_rank = m }))
        × (get_local_idx (record g { mpi_rank = m }) ≡ i)
        × (size (record g { mpi_rank = m }) ≡ size g)
  unfolding get_local_idx size
  members_agree i h = (same ∙ ap some restored, local_of_offset m i at_m, refl)
    where
      m : ℕ
      m = get_global_rank g i

      at_m : m ≡ g.group_start + i * stride
      at_m = omega (arith, global_eq i, start_eq)

      parts : (m / grid ≡ rank / grid) × (m % stride ≡ rank % stride)
      parts = rw (global_eq i) (
          member_fields grid stride (size g) (rank / grid) (rank % stride) (omega arith) covers i h)

      same : communication_group m grid stride ≡ some (group_at m grid stride)
      same = made_of_divides m grid stride facts.1

      restored : group_at m grid stride ≡ record g { mpi_rank = m }
      restored = cc (facts.0, parts.0, parts.1)

  -- Members are ranks of the world, if whole grids make it up.
  pub global_in_world : (k i : ℕ) → rank < k * grid → i < size g → get_global_rank g i < k * grid
  global_in_world k i r h =
      let b : rank % stride + i * stride < grid =
        within grid stride (size g) (rank / grid) (rank % stride) (omega arith) covers i h in
      let q : rank / grid < k = grind arith in
      let t : (rank / grid + 1) * grid ≤ k * grid = grind arith in omega (arith, global_eq i)

  -- Different local indices are different ranks.
  pub global_injective : (i j : ℕ) → get_global_rank g i ≡ get_global_rank g j → i ≡ j
  global_injective i j e =
      sym (div_of_multiple i stride pos)
      ∙ ap (λ (t : ℕ). t / stride) (omega (arith, global_eq i, global_eq j))
      ∙ div_of_multiple j stride pos
