-- ===== src/DistributeTable/Sizes.antt =====
-- The local sizes add up to the global size, and the start indices run along them.
use distributed_join.Prelude.{ℕ, suc, ◌+◌, ◌<◌, ◌≡◌, arith}
use distributed_join.DistributeTable.{get_local_table_size, start_idx}

-- The rows of a rank end where those of the next rank start.
pub start_idx-suc :
    (g r p : ℕ) → r < p → start_idx g (suc r) p ≡ start_idx g r p + get_local_table_size g r p
unfolding start_idx get_local_table_size
start_idx-suc g r p h = ground arith

pub start_idx-zero : (g p : ℕ) → start_idx g 0 p ≡ 0
unfolding start_idx
start_idx-zero g p = omega arith

-- The rows of the last rank end with the table.
pub start_idx_end : (g p : ℕ) → 0 < p → start_idx g p p ≡ g
unfolding start_idx
start_idx_end g p h = grind arith
