-- ===== src/Group/Collective.antt =====
-- What a collective operation relies on: the groups that its ranks construct fit together.
use distributed_join.Prelude.{ℕ, ◌<◌, ◌≡◌, refl, sym, ap, ◌∙◌, some, some_inj}
use distributed_join.Group.{
  CommunicationGroup, communication_group, size, get_global_rank, get_local_idx,
}
use distributed_join.Group.Layout.{global-local, members_agree, global_injective}

-- Rank `r` and the members of its group name one another by the same indices.
pub record IsCollective (groups : ℕ → CommunicationGroup) (r : ℕ) : Type 0 where
  pub me_in : get_local_idx (groups r) < size (groups r)
  pub me_at : get_global_rank (groups r) (get_local_idx (groups r)) ≡ r
  pub distinct : (i j : ℕ) → get_global_rank (groups r) i ≡ get_global_rank (groups r) j → i ≡ j
  pub agree :
      (i : ℕ)
      → i < size (groups r)
      → (j : ℕ)
      → get_global_rank (groups (get_global_rank (groups r) i)) j ≡ get_global_rank (groups r) j
  pub same_size :
      (i : ℕ) → i < size (groups r) → size (groups (get_global_rank (groups r) i)) ≡ size (groups r)
  pub place :
      (i : ℕ) → i < size (groups r) → get_local_idx (groups (get_global_rank (groups r) i)) ≡ i

-- Groups that all ranks construct with one grid size and one stride fit together.
pub made-IsCollective :
    (groups : ℕ → CommunicationGroup) (grid stride r : ℕ)
    → 0 < stride
    → 0 < grid
    → ((k : ℕ) → communication_group k grid stride ≡ some (groups k))
    → IsCollective groups r
unfolding get_global_rank
made-IsCollective groups grid stride r pos grid_pos made = record {
  me_in = own.1;
  me_at = own.0;
  distinct = global_injective r grid stride (groups r) pos grid_pos (made r);
  agree = λ i h j. ap (λ (g : CommunicationGroup). get_global_rank g j) (member i h) ∙ moved i j;
  same_size = λ i h. ap size (member i h) ∙ (all i h).2;
  place = λ i h. ap get_local_idx (member i h) ∙ (all i h).1;
}
  where
    own :
        (get_global_rank (groups r) (get_local_idx (groups r)) ≡ r)
        × (get_local_idx (groups r) < size (groups r))
    own = global-local r grid stride (groups r) pos grid_pos (made r)

    at : ℕ → ℕ
    at i = get_global_rank (groups r) i

    all :
        (i : ℕ)
        → i < size (groups r)
        → (communication_group (at i) grid stride ≡ some (record (groups r) { mpi_rank = at i }))
          × (get_local_idx (record (groups r) { mpi_rank = at i }) ≡ i)
          × (size (record (groups r) { mpi_rank = at i }) ≡ size (groups r))
    all i h = members_agree r grid stride (groups r) pos grid_pos (made r) i h

    member : (i : ℕ) → i < size (groups r) → groups (at i) ≡ record (groups r) { mpi_rank = at i }
    member i h = some_inj _ _ (sym (made (at i)) ∙ (all i h).0)

    moved :
        (i j : ℕ)
        → get_global_rank (record (groups r) { mpi_rank = at i }) j ≡ get_global_rank (groups r) j
    moved i j = refl
