-- ===== src/Shuffle/Filled.antt =====
-- shuffle_on.cpp and distributed_join.cpp: the communication of a table, made of the constructor of
-- `AllToAllCommunicator`, `allocate_communicated_table` and `launch_communication`, for a table
-- of one column of fixed width, a row of which is one item.
use distributed_join.Prelude.{
  ℕ, zero, suc, ◌+◌, ◌-◌, ◌*◌, ◌≤◌, ◌<◌, ◌≡◌, refl, ap, ap₂, ◌∙◌, fun_ext, arith, Bool, true,
  Option, none, some, List, [], ◌∷◌, get_or, ◌>>=◌, length,
}
use distributed_join.Prelude.Ranges.{range, flat_map}
use distributed_join.Prelude.Segments.{offsets_of, diffs}
use distributed_join.Prelude.Slices.{slice}
use distributed_join.Group.{CommunicationGroup, size, get_global_rank, get_local_idx}
use distributed_join.Group.Collective.{IsCollective}
use distributed_join.Communicator.{Transport}
use distributed_join.Compression.{
  Leaf, TypeId, Nvcomp, ColumnOptions, CompressionMethod, method, default_options,
}
use distributed_join.AllToAll.{communicate_sizes}
use distributed_join.AllToAll.Sizes.{counts_for, communicate_sizes_lem}
use distributed_join.AllToAll.Table.{
  AllToAllCommunicator, all_to_all_communicator, allocate_communicated_table, launch_communication,
  no_column,
}
use distributed_join.AllToAll.Table.Launch.{launch_communication_lem}
use distributed_join.Shuffle.{rows_at, Splits, Exchange}
use distributed_join.Shuffle.Rows.{climbs_on}

abbrev pub or_else : {B : Type 0} → Option B → B → B
or_else none b = b
or_else (some a) b = a

abbrev pub one_item : TypeId → ℕ
one_item d = 1

module _ {Row : Type 0} (nvcomp : Nvcomp Row) (junk : Row) (t : Transport Row) (mpi : Transport ℕ)
    (batch : Bool) (options : ℕ → List ColumnOptions) where
  -- A table of rows.
  abbrev table : List Row → List (Leaf Row)
  table rows = record { dtype = TypeId.int8; items = rows } ∷ []

  -- What the constructor makes of received offsets.
  abbrev with_offsets : ℕ → List Row → List ℕ → List ℕ → AllToAllCommunicator Row
  with_offsets k rows send_offsets recv_offsets = record {
    input_table = table rows;
    send_offsets = send_offsets;
    recv_offsets = recv_offsets;
    compression_options = options k;
    explicit_copy_to_current_rank = true;
  }

  -- On rank `r`, over the tables and the offsets of all ranks. A rank whose constructor fails takes
  -- part with what it has.
  unfoldable pub communicate_table :
      (ℕ → CommunicationGroup) → (ℕ → List Row) → (ℕ → List ℕ) → ℕ → Option (List Row)
  communicate_table groups tables offsets r =
      let constructed = λ (k : ℕ).
        all_to_all_communicator one_item junk mpi groups (λ j. table (tables j)) offsets (options k)
          true k in
      let objects = λ (k : ℕ). or_else (constructed k) (with_offsets k (tables k) (offsets k) []) in
      let allocated = λ (k : ℕ). allocate_communicated_table one_item junk (groups k) (objects k) in
      constructed r >>= λ _.
      launch_communication one_item junk nvcomp t mpi groups batch objects allocated r
      >>= λ columns. some (get_or columns 0 (no_column one_item junk)).items

  module _ (groups : ℕ → CommunicationGroup) (tables : ℕ → List Row) (offsets : ℕ → List ℕ) (r : ℕ)
      (c : IsCollective groups r) where
    abbrev received : ℕ → List ℕ
    received k = or_else (communicate_sizes mpi groups offsets k) []

    abbrev objects : ℕ → AllToAllCommunicator Row
    objects k = with_offsets k (tables k) (offsets k) (received k)

    abbrev constructed : ℕ → Option (AllToAllCommunicator Row)
    constructed k =
        all_to_all_communicator one_item junk mpi groups (λ j. table (tables j)) offsets (options k)
          true k

    constructed_or :
        (o : Option (List ℕ)) (k : ℕ)
        → or_else
            (o >>= λ v. some (with_offsets k (tables k) (offsets k) v))
            (with_offsets k (tables k) (offsets k) [])
          ≡ with_offsets k (tables k) (offsets k) (or_else o [])
    constructed_or none k = refl
    constructed_or (some v) k = refl

    objects_are :
        (λ k. or_else (constructed k) (with_offsets k (tables k) (offsets k) [])) ≡ objects
    unfolding all_to_all_communicator
    objects_are = fun_ext (λ k. constructed_or (communicate_sizes mpi groups offsets k) k)

    abbrev n : ℕ
    n = size (groups r)

    abbrev me : ℕ
    me = get_local_idx (groups r)

    abbrev member : ℕ → ℕ
    member i = get_global_rank (groups r) i

    module _
        (plain : (k i : ℕ) → method (get_or (options k) i default_options) ≡ CompressionMethod.none)
        (split : (i : ℕ) → i < n → Splits n (tables (member i)) (offsets (member i))) where
      rows_fit :
          (i b : ℕ)
          → i < n
          → b < 1
          → get_or (offsets (member i)) me 0 * 1 + diffs (offsets (member i)) me * 1
            ≤ length (get_or (table (tables (member i))) b (no_column one_item junk)).items
      rows_fit i zero h q =
          let s = split i h in
          let e : get_or (offsets (member i)) (me + 1 + (n - (me + 1))) 0
              ≡ get_or (offsets (member i)) n 0 =
            ap (λ j. get_or (offsets (member i)) j 0) (omega (arith, c.me_in)) in
          omega (
            arith,
            c.me_in,
            s.climbs me c.me_in,
            climbs_on n (tables (member i)) (offsets (member i)) s (n - (me + 1)) (me + 1)
                (omega (arith, c.me_in)),
            s.ends,
          )
      rows_fit i (suc b) h q = absurd (omega arith)

      counted : received r ≡ offsets_of 0 (counts_for mpi groups offsets r c)
      counted = ap (λ o. or_else o []) (communicate_sizes_lem mpi groups offsets r c)

      -- What member `i` sends are its rows between the offsets of this rank.
      rows_of_member :
          (i : ℕ)
          → slice
              (tables (member i))
              (get_or (offsets (member i)) me 0 * 1)
              (diffs (offsets (member i)) me * 1)
            ≡ rows_at (tables (member i)) (offsets (member i)) me
      rows_of_member i =
          ap₂ (λ (a b : ℕ). slice (tables (member i)) a b) (omega arith) (omega arith)

      same_types :
          (k b : ℕ)
          → b < 1
          → (get_or (table (tables k)) b (no_column one_item junk)).dtype
            ≡ (get_or (table (tables r)) b (no_column one_item junk)).dtype
      same_types k zero h = refl
      same_types k (suc b) h = absurd (omega arith)

      -- For tables of one column of fixed width, a row of which is one item, and options that do not
      -- compress: if the groups fit together, and the offsets of each member climb and end in its
      -- table, then the constructor of `AllToAllCommunicator`, `allocate_communicated_table` and
      -- `launch_communication`, with the explicit copy, give a rank the rows that the members have
      -- for it, in their order.
      pub communicate_table_lem :
          communicate_table groups tables offsets r
          ≡ some (flat_map (λ i. rows_at (tables (member i)) (offsets (member i)) me) (range 0 n))
      unfolding communicate_table all_to_all_communicator
      communicate_table_lem =
          ap
            (λ (o : Option (List ℕ)).
              (o >>= λ v. some (with_offsets r (tables r) (offsets r) v)) >>= λ _. launched)
            (communicate_sizes_lem mpi groups offsets r c)
          ∙ ap
              (λ (f : ℕ → AllToAllCommunicator Row).
                launch_communication one_item junk nvcomp t mpi groups batch f
                  (λ k. allocate_communicated_table one_item junk (groups k) (f k)) r
                >>= first_column)
              objects_are
          ∙ ap (λ o. o >>= first_column)
              (launch_communication_lem nvcomp one_item junk t mpi groups batch r c objects
                (λ k. allocate_communicated_table one_item junk (groups k) (objects k)) 1
                (λ k. refl) plain counted refl refl same_types rows_fit)
          ∙ ap (λ (f : ℕ → List Row). some (flat_map f (range 0 n))) (fun_ext rows_of_member)
        where
          first_column : List (Leaf Row) → Option (List Row)
          first_column columns = some (get_or columns 0 (no_column one_item junk)).items

          launched : Option (List Row)
          launched =
              let objects =
                λ (k : ℕ). or_else (constructed k) (with_offsets k (tables k) (offsets k) []) in
              launch_communication one_item junk nvcomp t mpi groups batch objects
                (λ k. allocate_communicated_table one_item junk (groups k) (objects k)) r
              >>= first_column

  -- The interface that `shuffle_on` and `distributed_inner_join` use, filled.
  abbrev pub filled :
      ((k i : ℕ) → method (get_or (options k) i default_options) ≡ CompressionMethod.none)
      → Exchange Row
  filled plain = record {
    all_to_all = communicate_table;
    gathers = λ groups tables offsets r c split.
        communicate_table_lem groups tables offsets r c plain split;
  }
