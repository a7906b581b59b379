-- ===== src/Compression/Functors.antt =====
-- compression.hpp: the compression and the decompression of the partitions of a buffer.
use distributed_join.Prelude.{
  ℕ, ◌*◌, ◌≡◌, refl, ap, ◌∙◌, Option, some, List, [], ◌∷◌, map, arith, ◌==◌, if◌then◌else◌, length,
  ◌>>=◌, sym, inl, inr, Bool-cases, if_true, if_false, ==_iff,
}
use distributed_join.Compression.{TypeId, cascaded_rep, Format, Nvcomp}

-- A partition: where its items are, and their count in elements.
pub record Partition (A : Type 0) : Type 0 where
  pub items : List A
  pub count : ℕ

nil_of_length : {A : Type 0} (xs : List A) → length xs ≡ 0 → xs ≡ []
nil_of_length [] e = refl
nil_of_length (x ∷ xs) e = absurd (omega arith)

mul_zero : (w n : ℕ) → n ≡ 0 → n * w ≡ 0
mul_zero w n e = ap (λ (v : ℕ). v * w) e ∙ omega arith

module _ {A : Type 0} (nvcomp : Nvcomp A) where
  -- One partition of `compression_functor`: an empty one has no compressed data.
  unfoldable pub compress_partition : TypeId → Format → Partition A → List A
  compress_partition rep cascaded_format p =
      if p.count == 0 then [] else nvcomp.compress rep cascaded_format p.items

  -- `compression_functor`: the compressed partitions, whose lengths are the compressed sizes.
  unfoldable pub compression_functor : TypeId → Format → List (Partition A) → Option (List (List A))
  compression_functor dtype cascaded_format partitions = do
    rep ← cascaded_rep dtype
    some (map (compress_partition rep cascaded_format) partitions)

  -- One partition of `decompression_functor`: what is written to its output. An empty one is passed
  -- over, and `none` is the failed assertion on the number of bytes.
  unfoldable pub decompress_partition : TypeId → ℕ → List A → ℕ → Option (List A)
  decompress_partition rep width compressed_data expected_output_count =
      let output = nvcomp.decompress rep compressed_data in
      if expected_output_count == 0
      then some []
      else if length output == expected_output_count * width
      then some output
      else Option.none

  -- Compressing and decompressing a partition gives it back, also the empty one.
  pub decompress-compress :
      (rep : TypeId) (f : Format) (p : Partition A) (width : ℕ)
      → length p.items ≡ p.count * width
      → decompress_partition rep width (compress_partition rep f p) p.count ≡ some p.items
  unfolding decompress_partition compress_partition
  decompress-compress rep f p width l = elim (Bool-cases (p.count == 0)) [
    | inl empty ↦
        if_true _ _ empty
        ∙ ap some (sym (nil_of_length p.items (ground (arith, l, mul_zero width p.count))))
    | inr full ↦
        if_false _ _ full
        ∙ ap
            (λ u.
              if length (nvcomp.decompress rep u) == p.count * width
              then some (nvcomp.decompress rep u)
              else Option.none)
            (if_false _ _ full)
        ∙ ap (λ u. if length u == p.count * width then some u else Option.none)
            (nvcomp.restores rep f p.items)
        ∙ if_true _ _ ((==_iff _ _).1 l)
  ]
