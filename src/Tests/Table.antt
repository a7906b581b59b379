-- ===== src/Tests/Table.antt =====
-- A table of five rows and two columns on two ranks.
use distributed_join.Prelude.{ℕ, zero, suc, ◌≡◌, refl, none, some, [], ◌∷◌, arith, get_or}
use distributed_join.DistributeTable.{Table, no_column, distribute_table, collect_tables}
use distributed_join.DistributeTable.RoundTrip.{
  IsTable, local_table, collected, distribute_table_lem, collect_tables_lem, collect-distribute,
}
use distributed_join.DistributeTable.Missing.{collect_tables-missing}
use distributed_join.Tests.{fifo, world}

-- The number of a type is the width of its items. The second column is of a decimal type.
abbrev width : ℕ → ℕ
width d = d

abbrev sample : Table ℕ
sample = record {
  num_rows = 5;
  columns =
      record { dtype = record { id = 1; scale = 0 }; head = 1 ∷ 2 ∷ 3 ∷ 4 ∷ 5 ∷ [] }
      ∷ record {
        dtype = record { id = 2; scale = 5 };
        head = 1 ∷ 0 ∷ 2 ∷ 0 ∷ 3 ∷ 0 ∷ 4 ∷ 0 ∷ 5 ∷ 0 ∷ [];
      }
      ∷ [];
}

sample-IsTable : IsTable width sample
sample-IsTable zero h = refl
sample-IsTable (suc zero) h = refl
sample-IsTable (suc (suc i)) h = absurd (omega arith)

distribute_table_example :
    distribute_table fifo world width 9 sample 2 1 ≡ some (local_table width sample 2 1)
distribute_table_example =
    distribute_table_lem fifo world width 9 sample 2 1 sample-IsTable (omega arith)

collect_tables_example :
    collect_tables fifo world width 9 (λ k. sample) 2 0 ≡ some (some (collected (λ k. sample) 2))
collect_tables_example =
    collect_tables_lem fifo world width 9 (λ k. sample) 2 (omega arith)
      (λ k i p q. (q, refl, sample-IsTable i q))

collect-distribute_example :
    collect_tables fifo world width 9 (local_table width sample 2) 2 0 ≡ some (some sample)
collect-distribute_example =
    collect-distribute fifo world width 9 sample 2 (local_table width sample 2) (omega arith)
      sample-IsTable (λ r h. distribute_table_lem fifo world width 9 sample 2 r sample-IsTable h)

-- The second rank does not get the scale.
scale_lost : (get_or (local_table width sample 2 1).columns 1 (no_column ℕ)).dtype.scale ≡ 0
scale_lost = refl

-- The second rank has what a local join of empty tables returns.
abbrev one_empty : ℕ → Table ℕ
one_empty zero = sample
one_empty (suc k) = record { num_rows = 0; columns = [] }

collect_tables-missing_example : collect_tables fifo world width 9 one_empty 2 0 ≡ none
collect_tables-missing_example =
    collect_tables-missing fifo world width 9 one_empty 2 1 (omega arith) (omega arith)
