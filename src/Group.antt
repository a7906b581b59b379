-- ===== src/Group.antt =====
-- all_to_all_comm.hpp: `CommunicationGroup`, the ranks of one all-to-all communication.
pub mod Layout
pub mod Collective
use distributed_join.Prelude.{
  ℕ, ◌+◌, ◌-◌, ◌*◌, ◌/◌, ◌%◌, ◌≡◌, Option, none, some, ◌==◌, if◌then◌else◌,
}

pub record CommunicationGroup : Type 0 where
  pub mpi_rank : ℕ
  pub group_start : ℕ
  pub grid_size : ℕ
  pub stride : ℕ

-- The constructor on rank `rank`; `none` is the failed assertion.
unfoldable pub communication_group : ℕ → ℕ → ℕ → Option CommunicationGroup
communication_group rank grid stride =
    if grid % stride == 0
    then some (record {
      mpi_rank = rank;
      group_start = rank / grid * grid + rank % stride;
      grid_size = grid;
      stride = stride;
    })
    else none

unfoldable pub size : CommunicationGroup → ℕ
size g = g.grid_size / g.stride

unfoldable pub get_global_rank : CommunicationGroup → ℕ → ℕ
get_global_rank g local_idx = g.group_start + local_idx * g.stride

unfoldable pub get_local_idx : CommunicationGroup → ℕ
get_local_idx g = (g.mpi_rank - g.group_start) / g.stride
