-- ===== src/Tests/Group.antt =====
-- The communication groups of four ranks with stride 2.
use distributed_join.Prelude.{◌<◌, ◌≡◌, refl, some, none, arith}
use distributed_join.Group.{communication_group, size, get_global_rank, get_local_idx}
use distributed_join.Group.Layout.{members_agree}
use distributed_join.Group.Collective.{IsCollective, made-IsCollective}
use distributed_join.Tests.{pairs, pairs_made}

group_3_of_7 : communication_group 0 7 3 ≡ none
unfolding communication_group
group_3_of_7 = refl

two_members : 1 < size (pairs 6)
unfolding size
two_members = omega arith

members_agree_example :
    (communication_group (get_global_rank (pairs 6) 1) 4 2
      ≡ some (record (pairs 6) { mpi_rank = get_global_rank (pairs 6) 1 }))
    × (get_local_idx (record (pairs 6) { mpi_rank = get_global_rank (pairs 6) 1 }) ≡ 1)
    × (size (record (pairs 6) { mpi_rank = get_global_rank (pairs 6) 1 }) ≡ size (pairs 6))
members_agree_example =
    members_agree 6 4 2 (pairs 6) (omega arith) (omega arith) (pairs_made 6) 1 two_members

made-IsCollective_example : IsCollective pairs 6
made-IsCollective_example = made-IsCollective pairs 4 2 6 (omega arith) (omega arith) pairs_made
