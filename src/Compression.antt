-- ===== src/Compression.antt =====
-- compression.hpp and compression.cpp: which columns are compressed, and how.
pub mod Functors
pub mod Options
use distributed_join.Prelude.{
  ℕ, zero, suc, ◌≡◌, Bool, true, false, Option, some, List, [], ◌∷◌, map, if◌then◌else◌, get_or,
  length, ◌==◌,
}
use distributed_join.Prelude.Ranges.{range}
use distributed_join.Communicator.{◌>>=◌}

-- `cudf::type_id`: `days` stands for the timestamps and durations that count in 32 bits, `ticks`
-- for those that count in 64.
pub data TypeId : Type 0 where
  int8 uint8 int16 uint16 int32 uint32 int64 uint64 : TypeId
  float32 float64 bool8 days ticks string : TypeId

pub data CompressionMethod : Type 0 where
  none cascaded lz4 : CompressionMethod

-- `nvcompCascadedFormatOpts`
pub record Format : Type 0 where
  pub num_rles : ℕ
  pub num_deltas : ℕ
  pub use_bp : ℕ

abbrev pub default_format : Format
default_format = record { num_rles = 0; num_deltas = 0; use_bp = 0 }

-- `ColumnCompressionOptions` and the vectors of its children.
mutual
  pub data ColumnOptions : Type 0 where
    options : CompressionMethod → Format → Children → ColumnOptions

  pub data Children : Type 0 where
    nil : Children
    cons : ColumnOptions → Children → Children

abbrev pub default_options : ColumnOptions
default_options = options none default_format nil

abbrev pub method : ColumnOptions → CompressionMethod
method (options m f c) = m

abbrev pub format : ColumnOptions → Format
format (options m f c) = f

abbrev pub children : ColumnOptions → Children
children (options m f c) = c

abbrev pub child : Children → ℕ → ColumnOptions
child nil i = default_options
child (cons o c) zero = o
child (cons o c) (suc i) = child c i

abbrev pub children_size : Children → ℕ
children_size nil = 0
children_size (cons o c) = suc (children_size c)

-- A column without children.
pub record Leaf (A : Type 0) : Type 0 where
  pub dtype : TypeId
  pub items : List A

-- `cudf::column_view`: a string column has the offsets and the characters as children.
pub data ColumnView (A : Type 0) : Type 0 where
  fixed : Leaf A → ColumnView A
  strings : Leaf A → Leaf A → ColumnView A

-- The type that a cascaded kernel works on: the integers as they are, times and durations as the
-- integers that represent them. `none`: the overload that throws.
unfoldable pub cascaded_rep : TypeId → Option TypeId
cascaded_rep int8 = some int8
cascaded_rep uint8 = some uint8
cascaded_rep int16 = some int16
cascaded_rep uint16 = some uint16
cascaded_rep int32 = some int32
cascaded_rep uint32 = some uint32
cascaded_rep int64 = some int64
cascaded_rep uint64 = some uint64
cascaded_rep days = some int32
cascaded_rep ticks = some int64
cascaded_rep float32 = Option.none
cascaded_rep float64 = Option.none
cascaded_rep bool8 = Option.none
cascaded_rep string = Option.none

-- nvcomp: the selector, the compressor, and the decompressor, which restores what was compressed.
pub record Nvcomp (A : Type 0) : Type 0 where
  pub select_config : TypeId → List A → Format
  pub compress : TypeId → Format → List A → List A
  pub decompress : TypeId → List A → List A
  pub restores : (ty : TypeId) (f : Format) (xs : List A) → decompress ty (compress ty f xs) ≡ xs

module _ {A : Type 0} (nvcomp : Nvcomp A) where
  unfoldable pub cascaded_selector_functor : Leaf A → Option Format
  cascaded_selector_functor leaf = do
    rep ← cascaded_rep leaf.dtype
    some (nvcomp.select_config rep leaf.items)

  unfoldable pub auto_select_column : ColumnView A → Option ColumnOptions
  auto_select_column (strings offset_column char_column) = do
    offset_cascaded_opts ← cascaded_selector_functor offset_column
    some (
        options none default_format
          (cons (options cascaded offset_cascaded_opts nil) (cons default_options nil)))
  auto_select_column (fixed column) = do
    column_cascaded_opts ← cascaded_selector_functor column
    some (options cascaded column_cascaded_opts nil)

  unfoldable pub generate_auto_select_compression_options :
      List (ColumnView A) → Option (List ColumnOptions)
  generate_auto_select_compression_options [] = some []
  generate_auto_select_compression_options (column ∷ columns) = do
    o ← auto_select_column column
    os ← generate_auto_select_compression_options columns
    some (o ∷ os)

module _ {A : Type 0} where
  unfoldable pub none_column : ColumnView A → ColumnOptions
  none_column (strings offset_column char_column) =
      options none default_format (cons default_options (cons default_options nil))
  none_column (fixed column) = default_options

  unfoldable pub generate_none_compression_options : List (ColumnView A) → List ColumnOptions
  generate_none_compression_options = map none_column

-- MPI_Bcast from rank 0.
pub record Broadcast (B : Type 0) : Type 0 where
  pub bcast : (ℕ → B) → ℕ → B
  pub root : (f : ℕ → B) (r : ℕ) → bcast f r ≡ f 0

-- The options for a child that a rank passes on: the root's; elsewhere the default ones.
abbrev pub child_options : (ℕ → ColumnOptions) → ℕ → ℕ → ColumnOptions
child_options input_options icol zero = child (children (input_options 0)) icol
child_options input_options icol (suc k) = default_options

-- The options of column `icol` on each rank: the root's, and elsewhere the default ones.
abbrev pub column_options : (ℕ → List ColumnOptions) → ℕ → ℕ → ColumnOptions
column_options input_options icol zero = get_or (input_options 0) icol default_options
column_options input_options icol (suc k) = default_options

module _ (methods : Broadcast CompressionMethod) (formats : Broadcast Format) where
  -- `broadcast_compression_options` of a column without children, on rank `r`, over the options
  -- that each rank passes in.
  unfoldable pub broadcast_leaf : (ℕ → ColumnOptions) → ℕ → ColumnOptions
  broadcast_leaf input_options r =
      options (methods.bcast (λ k. method (input_options k)) r)
        (formats.bcast (λ k. format (input_options k)) r) nil

  module _ {A : Type 0} where
    -- `broadcast_compression_options` of a column. `none` is the failed assertion on the root.
    unfoldable pub broadcast_column : ColumnView A → (ℕ → ColumnOptions) → ℕ → Option ColumnOptions
    broadcast_column (fixed column) input_options r = some (broadcast_leaf input_options r)
    broadcast_column (strings offset_column char_column) input_options r =
        let compression_method = methods.bcast (λ k. method (input_options k)) r in
        let cascaded_format = formats.bcast (λ k. format (input_options k)) r in
        let result = options compression_method cascaded_format (
          cons (broadcast_leaf (child_options input_options 0) r)
            (cons (broadcast_leaf (child_options input_options 1) r) nil)) in
        if (r == 0)
        then if children_size (children (input_options 0)) == 2 then some result else Option.none
        else some result

    -- `broadcast_compression_options` of a table, from its column `icol` on.
    unfoldable pub broadcast_from :
        List (ColumnView A) → ℕ → (ℕ → List ColumnOptions) → ℕ → Option (List ColumnOptions)
    broadcast_from [] icol input_options r = some []
    broadcast_from (column ∷ columns) icol input_options r = do
      o ← broadcast_column column (column_options input_options icol) r
      os ← broadcast_from columns (suc icol) input_options r
      some (o ∷ os)

    unfoldable pub broadcast_compression_options :
        List (ColumnView A) → (ℕ → List ColumnOptions) → ℕ → Option (List ColumnOptions)
    broadcast_compression_options table input_options r = broadcast_from table 0 input_options r

    -- `generate_compression_options_distributed` on rank `r`, over the tables of all ranks.
    unfoldable pub generate_compression_options_distributed :
        Nvcomp A → (ℕ → List (ColumnView A)) → Bool → ℕ → Option (List ColumnOptions)
    generate_compression_options_distributed nvcomp tables false r =
        some (generate_none_compression_options (tables r))
    generate_compression_options_distributed nvcomp tables true r = do
      root_options ← generate_auto_select_compression_options nvcomp (tables 0)
      broadcast_compression_options (tables r) (λ k. elim k [ zero ↦ root_options | suc k' ↦ [] ]) r
