-- ===== src/Nvlink.antt =====
-- distributed_join.cpp: `get_nvl_partition_size`, the number of ranks in an NVLink group.
pub mod Divisors
use distributed_join.Prelude.{
  ℕ, zero, suc, ◌+◌, ◌-◌, ◌*◌, ◌%◌, Bool, ◌&&◌, leb, ◌==◌, if◌then◌else◌,
}

-- The least number from `s` on whose square is not below `n`, within `fuel` steps.
unfoldable pub ceil_sqrt_from : ℕ → ℕ → ℕ → ℕ
ceil_sqrt_from n zero s = s
ceil_sqrt_from n (suc fuel) s =
    let rest = ceil_sqrt_from n fuel (suc s) in if leb n (s * s) then s else rest

-- `ceil(sqrt(n))`
unfoldable pub ceil_sqrt : ℕ → ℕ
ceil_sqrt n = ceil_sqrt_from n n 0

-- The loop of `get_nvl_partition_size`, from `size` down.
unfoldable pub partition_size_from : ℕ → ℕ → ℕ → ℕ
partition_size_from mpi_size nvlink_domain_size zero = 1
partition_size_from mpi_size nvlink_domain_size (suc n) =
    let rest = partition_size_from mpi_size nvlink_domain_size n in
    if (mpi_size % suc n == 0) && leb (suc n) nvlink_domain_size then suc n else rest

unfoldable pub get_nvl_partition_size : ℕ → ℕ → ℕ
get_nvl_partition_size mpi_size nvlink_domain_size =
    if leb mpi_size nvlink_domain_size
    then mpi_size
    else partition_size_from mpi_size nvlink_domain_size (ceil_sqrt mpi_size)
