-- ===== src/Shuffle/Rows.antt =====
-- Which rows a rank holds after a communication by hash.
use distributed_join.Prelude.{
  ℕ, zero, suc, ◌+◌, ◌-◌, ◌≤◌, ◌<◌, ◌≡◌, refl, sym, ap, ap₂, ◌∙◌, subst, arith, Bool, some, List,
  [], ◌∷◌, ◌++◌, length, get_or, ◌==◌, take, drop,
}
use distributed_join.Prelude.Ranges.{range, flat_map}
use distributed_join.Prelude.Perms.{keep, keep-flat_map, flat_map-range-Perm, same-Perm}
use distributed_join.Prelude.Slices.{slice}
use distributed_join.Group.{CommunicationGroup, size, get_global_rank, get_local_idx}
use distributed_join.Group.Collective.{IsCollective}
use distributed_join.Shuffle.{rows_at, Splits, HashPartition, Exchange, shuffle_on}
use mathlib.Core.List.{Perm}
use mathlib.Core.List as List

get_or-take-drop :
    (n s : ℕ) (xs : List ℕ) (i d : ℕ)
    → i < n
    → get_or (take n (drop s xs)) i d ≡ get_or xs (s + i) d
get_or-take-drop zero s xs i d h = absurd (omega arith)
get_or-take-drop (suc n) zero [] i d h = refl
get_or-take-drop (suc n) zero (x ∷ xs) zero d h = refl
get_or-take-drop (suc n) zero (x ∷ xs) (suc i) d h =
    get_or-take-drop n zero xs i d (omega arith)
    ∙ ap (λ j. get_or xs j d) {x = 0 + i} {y = i} (omega arith)
    ∙ sym (ap (λ j. get_or (x ∷ xs) j d) {x = 0 + suc i} {y = suc i} (omega arith))
get_or-take-drop (suc n) (suc s) [] i d h = refl
get_or-take-drop (suc n) (suc s) (x ∷ xs) i d h =
    get_or-take-drop (suc n) s xs i d h
    ∙ sym (ap (λ j. get_or (x ∷ xs) j d) {x = suc s + i} {y = suc (s + i)} (omega arith))

module _ {Row : Type 0} where
  pub climbs_on :
      (all : ℕ) (rows : List Row) (offsets : List ℕ)
      → Splits all rows offsets
      → (n i : ℕ) → i + n ≤ all
      → get_or offsets i 0 ≤ get_or offsets (i + n) 0
  climbs_on all rows offsets s zero i h =
      let e : get_or offsets i 0 ≡ get_or offsets (i + zero) 0 =
        ap (λ j. get_or offsets j 0) (omega arith) in
      omega arith
  climbs_on all rows offsets s (suc n) i h =
      let e : get_or offsets (i + 1 + n) 0 ≡ get_or offsets (i + suc n) 0 =
        ap (λ j. get_or offsets j 0) (omega arith) in
      omega (arith, s.climbs i (omega arith), climbs_on all rows offsets s n (i + 1) (omega arith))

  -- A part of a table's offsets: the parts from `start` on.
  pub Splits-sub :
      (n start all : ℕ) (rows : List Row) (offsets : List ℕ)
      → start + n ≤ all
      → Splits all rows offsets
      → Splits n rows (take (n + 1) (drop start offsets))
  Splits-sub n start all rows offsets h s = record {
    climbs = λ i q.
        let e : get_or offsets (start + (i + 1)) 0 ≡ get_or offsets (start + i + 1) 0 =
          ap (λ j. get_or offsets j 0) (omega arith) in
        omega (
          arith,
          get_or-take-drop (n + 1) start offsets i 0 (omega arith),
          get_or-take-drop (n + 1) start offsets (i + 1) 0 (omega arith),
          s.climbs (start + i) (omega arith),
        );
    ends =
        let e : get_or offsets (start + n + (all - (start + n))) 0 ≡ get_or offsets all 0 =
          ap (λ j. get_or offsets j 0) (omega arith) in
        omega (
          arith,
          get_or-take-drop (n + 1) start offsets n 0 (omega arith),
          climbs_on all rows offsets s (all - (start + n)) (start + n) (omega arith),
          s.ends,
        );
  }

  pub rows_at-sub :
      (n start : ℕ) (rows : List Row) (offsets : List ℕ) (i : ℕ)
      → i < n
      → rows_at rows (take (n + 1) (drop start offsets)) i ≡ rows_at rows offsets (start + i)
  rows_at-sub n start rows offsets i h =
      ap₂ (λ a b. slice rows a (b - a)) (get_or-take-drop (n + 1) start offsets i 0 (omega arith))
        (get_or-take-drop (n + 1) start offsets (i + 1) 0 (omega arith)
          ∙ ap (λ j. get_or offsets j 0) {x = start + (i + 1)} {y = start + i + 1} (omega arith))

module _ {Row : Type 0} (x : Exchange Row) (groups : ℕ → CommunicationGroup) (r : ℕ)
    (c : IsCollective groups r) where
  abbrev pub members_rows : (ℕ → List Row) → List Row
  members_rows input =
      flat_map (λ i. input (get_global_rank (groups r) i)) (range 0 (size (groups r)))

  -- If what each member has for this rank are its rows that pass a test, this rank ends with
  -- the rows of all members that pass it.
  pub gather_kept :
      (tables : ℕ → List Row) (offsets : ℕ → List ℕ) (input : ℕ → List Row) (p : Row → Bool)
      → ((i : ℕ)
          → i < size (groups r)
          → let k = get_global_rank (groups r) i in
            Splits (size (groups r)) (tables k) (offsets k)
            × Perm (rows_at (tables k) (offsets k) (get_local_idx (groups r))) (keep p (input k)))
      → (rows : List Row) × (x.all_to_all groups tables offsets r ≡ some rows)
        × Perm rows (keep p (members_rows input))
  gather_kept tables offsets input p each_member = (
    _,
    x.gathers groups tables offsets r c (λ i h. (each_member i h).0),
    List.Perm.trans
        (flat_map-range-Perm _ (λ i. keep p (input (get_global_rank (groups r) i))) 0
          (size (groups r)) (λ i _ h. (each_member i (omega arith)).1))
        (same-Perm (
          sym (
            keep-flat_map p (λ i. input (get_global_rank (groups r) i))
              (range 0 (size (groups r)))))),
  )

  module _ (h : HashPartition Row) where
    -- After a shuffle a rank holds the rows of all members whose hash is its index in the group.
    pub shuffle_on_lem :
        (seed : ℕ) (input : ℕ → List Row)
        → (rows : List Row) × (shuffle_on h x seed groups input r ≡ some rows)
          × Perm rows (
              keep
                (λ row. h.bin seed (size (groups r)) row == get_local_idx (groups r))
                (members_rows input))
    unfolding shuffle_on
    shuffle_on_lem seed input =
        gather_kept (λ k. (h.hash_partition seed (size (groups k)) (input k)).0) _ input _
          (λ i q. subst (holds (get_global_rank (groups r) i)) (sym (c.same_size i q)) (
            h.splits seed (size (groups r)) (input (get_global_rank (groups r) i)),
            h.parts seed (size (groups r)) (input (get_global_rank (groups r) i))
                (get_local_idx (groups r)) c.me_in,
          ))
      where
        holds : ℕ → ℕ → Type 0
        holds k n =
            let (hashed, offsets) = h.hash_partition seed n (input k) in
            Splits (size (groups r)) hashed (offsets ++ length hashed ∷ [])
            × Perm (rows_at hashed (offsets ++ length hashed ∷ []) (get_local_idx (groups r))) (
                keep (λ row. h.bin seed (size (groups r)) row == get_local_idx (groups r))
                  (input k))
