-- ===== src/Tests/Options.antt =====
-- The compression options of a table with a number and a string column, and a partition.
use distributed_join.Prelude.{ℕ, ◌≡◌, refl, true, some, List, [], ◌∷◌}
use distributed_join.Compression.{
  int32, int8, CompressionMethod, cascaded, default_format, ColumnOptions, options, default_options,
  nil, cons, ColumnView, fixed, strings, generate_auto_select_compression_options,
  auto_select_column, cascaded_selector_functor, cascaded_rep,
  generate_compression_options_distributed,
}
use distributed_join.Compression.Functors.{}
use distributed_join.Compression.Options.{generate_distributed_agree}
use distributed_join.Tests.{identity_codec, from_root}

abbrev table : List (ColumnView ℕ)
table =
    fixed (record { dtype = int32; items = 1 ∷ 2 ∷ [] })
    ∷ strings (record { dtype = int32; items = 0 ∷ 1 ∷ [] })
        (record { dtype = int8; items = 7 ∷ [] })
    ∷ []

abbrev selected : List ColumnOptions
selected =
    options cascaded default_format nil
    ∷ options CompressionMethod.none default_format
        (cons (options cascaded default_format nil) (cons default_options nil))
    ∷ []

table-selected : generate_auto_select_compression_options identity_codec table ≡ some selected
unfolding generate_auto_select_compression_options auto_select_column cascaded_selector_functor
    cascaded_rep
table-selected = refl

generate_distributed_agree_example :
    generate_compression_options_distributed from_root from_root identity_codec (λ r. table) true 1
    ≡ some selected
generate_distributed_agree_example =
    generate_distributed_agree from_root from_root identity_codec (λ r. table) selected 1 tt
      table-selected
