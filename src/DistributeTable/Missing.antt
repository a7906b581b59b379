-- ===== src/DistributeTable/Missing.antt =====
-- `collect_tables` where a rank has not the columns of the root, as after a local join of empty tables.
use distributed_join.Prelude.{
  ℕ, zero, suc, ◌+◌, ◌-◌, ◌*◌, ◌≤◌, ◌<◌, ◌≡◌, refl, ap, ◌∙◌, Bool, true, false, if◌then◌else◌,
  Option, none, some, List, [], ◌∷◌, ◌++◌, set, arith, length, get_or, ltb, ◌==◌, if_false,
}
use distributed_join.Prelude.Ranges.{range, flat_map, each}
use native.Mathlib.Decide.{dec_le}
use distributed_join.Prelude.Segments.{offsets_of, last_or}
use distributed_join.Prelude.Slices.{write_at}
use distributed_join.Communicator.{
  Call, stop, recv, sent_to, Transport, Memory, Inbox, receive, pop, tail, complete, ◌>>=◌,
}
use distributed_join.DistributeTable.{
  Table, Mpi, no_column, collect_calls, collect_col, collect_tables,
}

module _ {A : Type 0} (k : ℕ) where
  -- No message of rank `k` is left.
  abbrev IsSilent : Memory A → Type 0
  IsSilent m = m.0 k ≡ []

  module _ (buffer offset count element_size i : ℕ) (inbox : Inbox A) (buffers : List (List A))
      (after : Memory A → Option (Memory A)) where
    abbrev received : List A → Memory A
    received m = (pop inbox i, set buffers buffer (write_at (get_or buffers buffer []) offset m))

    abbrev by_messages : List (List A) → Option (Memory A)
    by_messages messages = elim messages [
      | [] ↦ none
      | m ∷ ms ↦ if length m == count * element_size then some (received m) else none
    ]

    silent_or_stuck :
        (silent : inbox k ≡ [])
        → ((m : Memory A) → IsSilent m → after m ≡ none)
        → (messages : List (List A)) → (by_messages messages >>= after) ≡ none
    silent_or_stuck silent stuck [] = refl
    silent_or_stuck silent stuck (m ∷ ms) = on_size (length m == count * element_size)
      where
        popped : (b : Bool) → (if b then tail (inbox k) else inbox k) ≡ []
        popped true = ap tail silent
        popped false = silent

        still : IsSilent (received m)
        still = popped (i == k)

        on_size : (b : Bool) → ((if b then some (received m) else none) >>= after) ≡ none
        on_size true = stuck (received m) still
        on_size false = refl

  -- A receive from each of the ranks from `i` on.
  abbrev receives : (ℕ → ℕ) → (ℕ → ℕ) → ℕ → ℕ → ℕ → List (Call A)
  receives offset count w i n =
      flat_map (λ irank. recv 0 (offset irank) (count irank) w irank ∷ []) (range i n)

  -- A receive from rank `k` is among them.
  never_done :
      (offset count : ℕ → ℕ) (w n i : ℕ) (m : Memory A)
      → IsSilent m
      → i ≤ k
      → k < i + n
      → complete (receives offset count w i n ++ stop ∷ []) m ≡ none
  unfolding complete receive
  never_done offset count w zero i m silent q h = absurd (omega arith)
  never_done offset count w (suc n) i (inbox, buffers) silent q h = elim (dec_le k i) [
    | yes le ↦
        ap
          (λ messages.
            by_messages 0 (offset i) (count i) w i inbox buffers after messages >>= after)
          (ap inbox {x = i} {y = k} (omega arith) ∙ silent)
    | no gt ↦
        silent_or_stuck 0 (offset i) (count i) w i inbox buffers after silent
          (λ m still. never_done offset count w n (suc i) m still (omega arith) (omega arith))
          (inbox i)
  ]
    where
      after : Memory A → Option (Memory A)
      after = complete (receives offset count w (suc i) n ++ stop ∷ [])

never_each :
    {B : Type 0} (f : ℕ → Option B) (j n i : ℕ)
    → f j ≡ none
    → i ≤ j
    → j < i + n
    → each f (range i n) ≡ none
never_each f j zero i stuck q h = absurd (omega arith)
never_each f j (suc n) i stuck q h = elim (dec_le j i) [
  | yes le ↦
      ap (λ o. o >>= λ y. each f (range (suc i) n) >>= λ ys. some (y ∷ ys))
        (ap f {x = i} {y = j} (omega arith) ∙ stuck)
  | no gt ↦ rest (f i) (never_each f j n (suc i) stuck (omega arith) (omega arith))
]
  where
    rest :
        (o : Option _)
        → each f (range (suc i) n) ≡ none
        → (o >>= λ y. each f (range (suc i) n) >>= λ ys. some (y ∷ ys)) ≡ none
    rest none e = refl
    rest (some y) e = ap (λ o. o >>= λ ys. some (y ∷ ys)) e

module _ {A : Type 0} (t : Transport A) (mpi : Mpi) (size_of : ℕ → ℕ) (junk : A) where
  -- One column that rank `k` has not.
  collect_col-missing :
      (has_column : ℕ → Bool) (col : ℕ → List A) (nrows : ℕ → ℕ) (table_nrows : List ℕ)
      (dtype_size : ℕ → ℕ) (p k : ℕ)
      → 0 < k
      → k < p
      → has_column k ≡ false
      → collect_col t junk has_column col nrows table_nrows dtype_size p ≡ none
  unfolding collect_col complete collect_calls
  collect_col-missing has_column col nrows table_nrows dtype_size p k some_rank in_world missing =
      ap (λ o. o >>= λ m. some (get_or m.1 0 []))
        (never_done k (λ irank. get_or (offsets_of 0 table_nrows) irank 0 * dtype_size 0)
          (λ irank. get_or table_nrows irank 0) (dtype_size 0) (p - 1) 1 _
          (t.in_order _ 0 k ∙ ap (sent_to 0) (if_false _ _ missing)) (omega arith) (omega arith))

  -- If a rank of the world has fewer columns than the root, `collect_tables` does not succeed on the
  -- root, since the root receives every one of its columns from every rank.
  pub collect_tables-missing :
      (tables : ℕ → Table A) (p k : ℕ)
      → k < p
      → length (tables k).columns < length (tables 0).columns
      → collect_tables t mpi size_of junk tables p 0 ≡ none
  unfolding collect_tables
  collect_tables-missing tables p k in_world fewer =
      ap
        (λ o. o >>= λ columns. some (
          some (record {
            num_rows = last_or (offsets_of 0 (mpi.gather (λ k. (tables k).num_rows) p)) 0;
            columns = columns;
          })))
        (never_each _ (length (tables k).columns) (length (tables 0).columns) 0
          (ap
            (λ o. o >>= λ head. some (record {
              dtype = (get_or (tables 0).columns (length (tables k).columns) (no_column A)).dtype;
              head = head;
            }))
            (collect_col-missing _ _ _ _ _ p k (other k fewer) in_world (none_left _)))
          (omega arith) (omega arith))
    where
      none_left : (n : ℕ) → ltb n n ≡ false
      none_left n = ground arith

      other : (k : ℕ) → length (tables k).columns < length (tables 0).columns → 0 < k
      other zero h = absurd (omega arith)
      other (suc k) h = omega arith
