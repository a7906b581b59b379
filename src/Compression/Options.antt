-- ===== src/Compression/Options.antt =====
-- The options have the shape of the table, and all ranks end with those of the root.
use distributed_join.Prelude.{
  ℕ, zero, suc, ◌≡◌, refl, sym, ap, ◌∙◌, ◌>>=◌, true, some, List, [], ◌∷◌, arith, get_or, length,
  subst, some_inj, bind_some, ◌++◌, append_assoc, length-append,
}
use distributed_join.Prelude.Ranges.{get_or-append}
use distributed_join.Compression.{
  CompressionMethod, cascaded, Format, default_format, ColumnOptions, options, nil, cons,
  default_options, children, child, Leaf, ColumnView, fixed, strings, Nvcomp, auto_select_column,
  cascaded_selector_functor, generate_auto_select_compression_options, none_column,
  generate_none_compression_options, Broadcast, broadcast_leaf, broadcast_column, child_options,
  column_options, broadcast_from, broadcast_compression_options,
  generate_compression_options_distributed,
}

module _ (methods : Broadcast CompressionMethod) (formats : Broadcast Format) where
  leaf_of_root :
      (opts : ℕ → ColumnOptions) (m : CompressionMethod) (f : Format) (r : ℕ)
      → opts 0 ≡ options m f nil
      → broadcast_leaf methods formats opts r ≡ options m f nil
  unfolding broadcast_leaf
  leaf_of_root opts m f r e = simp (methods.root, formats.root) (rw e)

module _ {A : Type 0} where
  -- Options for a column: a string column has options for its two children.
  pub data HasShape : ColumnView A → ColumnOptions → Type 0 where
    for_fixed :
        (l : Leaf A) (m : CompressionMethod) (f : Format) → HasShape (fixed l) (options m f nil)
    for_strings :
        (x y : Leaf A) (m m₀ m₁ : CompressionMethod) (f f₀ f₁ : Format)
        → HasShape
            (strings x y)
            (options m f (cons (options m₀ f₀ nil) (cons (options m₁ f₁ nil) nil)))

  abbrev pub HaveShape : List (ColumnView A) → List ColumnOptions → Type 0
  HaveShape [] [] = Unit {0}
  HaveShape [] (o ∷ os) = ⊥
  HaveShape (c ∷ cs) [] = ⊥
  HaveShape (c ∷ cs) (o ∷ os) = HasShape c o × HaveShape cs os

  -- Tables whose columns are strings in the same places.
  abbrev pub Alike : List (ColumnView A) → List (ColumnView A) → Type 0
  Alike [] [] = Unit {0}
  Alike (fixed l ∷ cs) (fixed l' ∷ ds) = Alike cs ds
  Alike (strings x y ∷ cs) (strings x' y' ∷ ds) = Alike cs ds
  Alike _ _ = ⊥

  none_column-HasShape : (c : ColumnView A) → HasShape c (none_column c)
  unfolding none_column
  none_column-HasShape (fixed l) = for_fixed l CompressionMethod.none default_format
  none_column-HasShape (strings x y) =
      for_strings x y CompressionMethod.none CompressionMethod.none CompressionMethod.none
        default_format default_format default_format

  pub none-HaveShape :
      (cs : List (ColumnView A)) → HaveShape cs (generate_none_compression_options cs)
  unfolding generate_none_compression_options
  none-HaveShape [] = tt
  none-HaveShape (c ∷ cs) = (none_column-HasShape c, none-HaveShape cs)

  auto_column-HasShape :
      (nvcomp : Nvcomp A) (c : ColumnView A) (o : ColumnOptions)
      → auto_select_column nvcomp c ≡ some o
      → HasShape c o
  unfolding auto_select_column
  auto_column-HasShape nvcomp (fixed l) o e =
      let (f, p, q) = bind_some (cascaded_selector_functor nvcomp l) _ e in
      subst (HasShape (fixed l)) (some_inj (options cascaded f nil) o q) (for_fixed l cascaded f)
  auto_column-HasShape nvcomp (strings x y) o e =
      let (f, p, q) = bind_some (cascaded_selector_functor nvcomp x) _ e in
      subst (HasShape (strings x y))
        (some_inj
          (options CompressionMethod.none default_format
            (cons (options cascaded f nil) (cons default_options nil)))
          o q)
        (for_strings x y CompressionMethod.none cascaded CompressionMethod.none default_format f
          default_format)

  pub auto-HaveShape :
      (nvcomp : Nvcomp A) (cs : List (ColumnView A)) (os : List ColumnOptions)
      → generate_auto_select_compression_options nvcomp cs ≡ some os
      → HaveShape cs os
  unfolding generate_auto_select_compression_options
  auto-HaveShape nvcomp [] [] e = tt
  auto-HaveShape nvcomp [] (o ∷ os) e = cc
  auto-HaveShape nvcomp (c ∷ cs) os e =
      let (o, p, q) = bind_some (auto_select_column nvcomp c) _ e in
      let (rest, p', q') = bind_some (generate_auto_select_compression_options nvcomp cs) _ q in
      subst (HaveShape (c ∷ cs)) (some_inj (o ∷ rest) os q')
        (auto_column-HasShape nvcomp c o p, auto-HaveShape nvcomp cs rest p')

  module _ (methods : Broadcast CompressionMethod) (formats : Broadcast Format) where
    column_of_root :
        (c : ColumnView A) (o : ColumnOptions) (opts : ℕ → ColumnOptions) (r : ℕ)
        → HasShape c o
        → opts 0 ≡ o
        → broadcast_column methods formats c opts r ≡ some o
    unfolding broadcast_column
    column_of_root c o opts r (for_fixed l m f) e =
        ap some (leaf_of_root methods formats opts m f r e)
    column_of_root c o opts r (for_strings x y m m₀ m₁ f f₀ f₁) e =
        simp (methods.root, formats.root)
          (rw
            (
              e,
              leaf_of_root methods formats (child_options opts 0) m₀ f₀ r
                  (ap (λ o. child (children o) 0) e),
              leaf_of_root methods formats (child_options opts 1) m₁ f₁ r
                  (ap (λ o. child (children o) 1) e),
            )
            (ground arith))

    -- Along a list whose entries stand at `icol` in the root's options.
    table_of_root :
        (cs : List (ColumnView A)) (os before : List ColumnOptions) (opts : ℕ → List ColumnOptions)
        (r icol : ℕ)
        → HaveShape cs os
        → opts 0 ≡ before ++ os
        → length before ≡ icol
        → broadcast_from methods formats cs icol opts r ≡ some os
    unfolding broadcast_from
    table_of_root [] [] before opts r icol h e l = refl
    table_of_root [] (o ∷ os) before opts r icol h e l = absurd h
    table_of_root (c ∷ cs) [] before opts r icol h e l = absurd h
    table_of_root (c ∷ cs) (o ∷ os) before opts r icol h e l =
        ap
          (λ u.
            u >>= λ y. broadcast_from methods formats cs (suc icol) opts r >>= λ ys. some (y ∷ ys))
          (column_of_root c o (column_options opts icol) r h.0 (
            ap (λ v. get_or v icol default_options) e
            ∙ get_or-append before o os default_options icol l))
        ∙ ap (λ u. u >>= λ ys. some (o ∷ ys))
            (table_of_root cs os (before ++ o ∷ []) opts r (suc icol) h.1
              (e ∙ sym (append_assoc before (o ∷ []) os))
              (omega (arith, length-append before (o ∷ []))))

    -- A broadcast gives every rank the options of the root, if they have the table's shape.
    pub broadcast_lem :
        (cs : List (ColumnView A)) (opts : ℕ → List ColumnOptions) (r : ℕ)
        → HaveShape cs (opts 0)
        → broadcast_compression_options methods formats cs opts r ≡ some (opts 0)
    unfolding broadcast_compression_options
    broadcast_lem cs opts r h = table_of_root cs (opts 0) [] opts r 0 h refl refl

  moved_shape :
      (c d : ColumnView A) (o : ColumnOptions)
      → Alike (c ∷ []) (d ∷ [])
      → HasShape c o
      → HasShape d o
  moved_shape (fixed l) (fixed l') o a (for_fixed _ m f) = for_fixed l' m f
  moved_shape (fixed l) (strings x y) o a h = absurd a
  moved_shape (strings x y) (fixed l) o a h = absurd a
  moved_shape (strings x y) (strings x' y') o a (for_strings _ _ m m₀ m₁ f f₀ f₁) =
      for_strings x' y' m m₀ m₁ f f₀ f₁

  moved_shapes :
      (cs ds : List (ColumnView A)) (os : List ColumnOptions)
      → Alike cs ds
      → HaveShape cs os
      → HaveShape ds os
  moved_shapes [] [] os a h = h
  moved_shapes [] (d ∷ ds) os a h = absurd a
  moved_shapes (fixed l ∷ cs) [] os a h = absurd a
  moved_shapes (strings x y ∷ cs) [] os a h = absurd a
  moved_shapes (c ∷ cs) (d ∷ ds) [] a h = absurd h
  moved_shapes (fixed l ∷ cs) (fixed l' ∷ ds) (o ∷ os) a h =
      (moved_shape (fixed l) (fixed l') o tt h.0, moved_shapes cs ds os a h.1)
  moved_shapes (fixed l ∷ cs) (strings x y ∷ ds) (o ∷ os) a h = absurd a
  moved_shapes (strings x y ∷ cs) (fixed l ∷ ds) (o ∷ os) a h = absurd a
  moved_shapes (strings x y ∷ cs) (strings x' y' ∷ ds) (o ∷ os) a h =
      (moved_shape (strings x y) (strings x' y') o tt h.0, moved_shapes cs ds os a h.1)

  -- With compression all ranks end with the options that the root selects for its own table.
  pub generate_distributed_agree :
      (methods : Broadcast CompressionMethod) (formats : Broadcast Format) (nvcomp : Nvcomp A)
      (tables : ℕ → List (ColumnView A)) (os : List ColumnOptions) (r : ℕ)
      → Alike (tables 0) (tables r)
      → generate_auto_select_compression_options nvcomp (tables 0) ≡ some os
      → generate_compression_options_distributed methods formats nvcomp tables true r ≡ some os
  unfolding generate_compression_options_distributed
  generate_distributed_agree methods formats nvcomp tables os r a e =
      ap
        (λ u. u >>= λ o.
          broadcast_compression_options methods formats (tables r)
            (λ k. elim k [ zero ↦ o | suc k' ↦ [] ]) r)
        e
      ∙ broadcast_lem methods formats (tables r) (λ k. elim k [ zero ↦ os | suc k' ↦ [] ]) r
          (moved_shapes (tables 0) (tables r) os a (auto-HaveShape nvcomp (tables 0) os e))
