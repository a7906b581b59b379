-- ===== src/Setup/Order.antt =====
-- The order in which the communicator, the registered memory resource and the memory pool are made
-- and destroyed.
use Prim.Native.String.{String}
use text.Mathlib.Text.{◌==◌}
use distributed_join.Prelude.{
  ℕ, ◌*◌, ◌/◌, ◌≡◌, refl, sym, ap, ◌∙◌, Bool, true, false, not, ◌&&◌, Option, none, some, ◌>>=◌,
  List, [], ◌∷◌, ◌++◌, if◌then◌else◌,
}
use distributed_join.Setup.{
  ℤ, difference, Step, initialize_nccl, initialize_ucx, initialize_ucx_buffer, new_registered,
  new_pool, finalize, delete_pool, delete_registered, delete_communicator, Setup, runtime_error,
  made, memory_pool_size, setup_memory_pool_and_communicator, destroy_memory_pool_and_communicator,
}

-- What there is: the communicator's object, whether it is initialized, whether its cache holds
-- memory of the pool, the registered resource, the pool, and whether the pool's memory comes from
-- the registered resource.
pub record Resources : Type 0 where
  pub object : Bool
  pub initialized : Bool
  pub cache : Bool
  pub registered : Bool
  pub pool : Bool
  pub over_registered : Bool

abbrev pub nothing : Resources
nothing = record {
  object = false;
  initialized = false;
  cache = false;
  registered = false;
  pool = false;
  over_registered = false;
}

-- A step, where what it uses is there: a pool over the registered resource allocates and
-- deallocates through it, and it registers with the communicator, so both have to be there; the
-- cache is allocated and deallocated in the pool.
pub step : Resources → Step → Option Resources
step s initialize_nccl =
    if not s.object then some (record s { object = true; initialized = true }) else none
step s initialize_ucx =
    if not s.object then some (record s { object = true; initialized = true }) else none
step s (initialize_ucx_buffer n k) =
    if not s.object && s.pool
    then some (record s { object = true; initialized = true; cache = true })
    else none
step s new_registered =
    if s.initialized && not s.registered then some (record s { registered = true }) else none
step s (new_pool over bytes) =
    if not s.pool && (if over then s.registered && s.initialized else true)
    then some (record s { pool = true; over_registered = over })
    else none
step s finalize =
    if s.initialized && (if s.cache then s.pool else true)
    then some (record s { initialized = false; cache = false })
    else none
step s delete_pool =
    if s.pool && not s.cache && (if s.over_registered then s.registered && s.initialized else true)
    then some (record s { pool = false; over_registered = false })
    else none
step s delete_registered =
    if s.over_registered then none else some (record s { registered = false })
step s delete_communicator =
    if s.object && not s.initialized then some (record s { object = false }) else none

pub steps : Resources → List Step → Option Resources
steps s [] = some s
steps s (a ∷ rest) = step s a >>= λ s. steps s rest

followed_by : List Step → Setup → Option Resources
followed_by after (runtime_error what) = some nothing
followed_by after (made before) = steps nothing (before ++ after)

by_tests :
    (n u b p q : Bool) (k bytes : ℕ) (size : ℤ)
    → followed_by
        (if u && b
          then finalize ∷ delete_pool ∷ delete_registered ∷ delete_communicator ∷ []
          else delete_pool ∷ delete_registered ∷ finalize ∷ delete_communicator ∷ [])
        (if n
          then made (initialize_nccl ∷ new_pool false bytes ∷ [])
          else if u
          then (if b
              then made (new_pool false bytes ∷ initialize_ucx_buffer k size ∷ [])
              else if p
              then made (initialize_ucx ∷ new_registered ∷ new_pool true bytes ∷ [])
              else if q
              then made (initialize_ucx ∷ new_pool false bytes ∷ [])
              else runtime_error "Unknown registration method")
          else runtime_error "Unknown communicator name")
      ≡ some nothing
unfolding followed_by steps step
by_tests true true true p q k bytes size = refl
by_tests true true false p q k bytes size = refl
by_tests true false b p q k bytes size = refl
by_tests false true true p q k bytes size = refl
by_tests false true false true q k bytes size = refl
by_tests false true false false true k bytes size = refl
by_tests false true false false false k bytes size = refl
by_tests false false b p q k bytes size = refl

-- If `setup_memory_pool_and_communicator` returns, its steps and those of
-- `destroy_memory_pool_and_communicator` for the same names find what they use, and leave nothing.
pub setup-destroy :
    (mpi_size free_memory : ℕ) (communicator_name registration_method : String) (size : ℕ)
    (before : List Step)
    → setup_memory_pool_and_communicator mpi_size free_memory communicator_name registration_method
        size
      ≡ made before
    → steps nothing
        (before ++ destroy_memory_pool_and_communicator communicator_name registration_method)
      ≡ some nothing
unfolding setup_memory_pool_and_communicator destroy_memory_pool_and_communicator followed_by
setup-destroy mpi_size free_memory name method size before e =
    ap (followed_by (destroy_memory_pool_and_communicator name method)) (sym e)
    ∙ by_tests (name == "NCCL") (name == "UCX") (method == "buffer") (method == "preregistered")
        (method == "none") (2 * mpi_size) (memory_pool_size free_memory)
        (difference (size / (2 * mpi_size)) 100000)
