-- ===== src/Tests/Bins.antt =====
-- A hash partition that puts a number into the bin of its remainder, an exchange, and a join.
use distributed_join.Prelude.{
  ℕ, zero, suc, ◌+◌, ◌%◌, ◌<◌, ◌≤◌, ◌≡◌, ◌≢◌, refl, sym, ap, ap₂, ◌∙◌, subst, arith, Bool, true,
  false, ◌&&◌, Option, none, some, List, [], ◌∷◌, ◌++◌, map, ◌==◌, if◌then◌else◌, if_true, if_false,
  length, get_or, length-append, length-map, take, drop-length-append, take-length-append,
  append_assoc, ==_iff, Bool-cases, inl, inr, ℕ_discrete,
}
use distributed_join.Prelude.Ranges.{range, flat_map, get_or-map-range, length-range}
use distributed_join.Join.World.{flat_map-map}
use native.Mathlib.Nat.{mod-lt}
use distributed_join.Prelude.Slices.{slice}
use distributed_join.Prelude.Perms.{
  keep, same-Perm, flat_map_swap-Perm, flat_map-range_single, length-Perm,
}
use distributed_join.Group.{size, get_global_rank, get_local_idx}
use distributed_join.Shuffle.{HashPartition, Exchange, Splits, rows_at}
use distributed_join.Join.{Joined, Cudf, HaveColumns, join}
use mathlib.Core.List as List
use mathlib.Core.List.{Perm}

-- The starts of pieces that lie behind one another, from `acc` on.
abbrev starts : ℕ → List (List ℕ) → List ℕ
starts acc [] = []
starts acc (p ∷ ps) = acc ∷ starts (acc + length p) ps

abbrev joined : List (List ℕ) → List ℕ
joined = flat_map (λ p. p)

abbrev bounds : ℕ → List (List ℕ) → List ℕ
bounds acc ps = starts acc ps ++ (acc + length (joined ps)) ∷ []

first_bound : (acc : ℕ) (ps : List (List ℕ)) → get_or (bounds acc ps) 0 0 ≡ acc
first_bound acc [] = omega arith
first_bound acc (p ∷ ps) = refl

next_bound :
    (acc : ℕ) (p : List ℕ) (ps : List (List ℕ)) (i : ℕ)
    → get_or (bounds acc (p ∷ ps)) (suc i) 0 ≡ get_or (bounds (acc + length p) ps) i 0
next_bound acc p ps i =
    ap (λ n. get_or (starts (acc + length p) ps ++ n ∷ []) i 0)
      (omega (arith, length-append p (joined ps)))

climb :
    (acc : ℕ) (ps : List (List ℕ)) (i : ℕ)
    → i < length ps
    → get_or (bounds acc ps) (i + 1) 0 ≡ get_or (bounds acc ps) i 0 + length (get_or ps i [])
climb acc [] i h = absurd (omega arith)
climb acc (p ∷ ps) zero h =
    ap (λ j. get_or (bounds acc (p ∷ ps)) j 0) {x = 0 + 1} {y = suc 0} (omega arith)
    ∙ next_bound acc p ps 0
    ∙ first_bound (acc + length p) ps
climb acc (p ∷ ps) (suc i) h =
    ap (λ j. get_or (bounds acc (p ∷ ps)) j 0) {x = suc i + 1} {y = suc (i + 1)} (omega arith)
    ∙ next_bound acc p ps (i + 1)
    ∙ climb (acc + length p) ps i (omega arith)
    ∙ ap (λ (v : ℕ). v + length (get_or ps i [])) (sym (next_bound acc p ps i))

last_bound :
    (acc : ℕ) (ps : List (List ℕ)) → get_or (bounds acc ps) (length ps) 0 ≡ acc + length (joined ps)
last_bound acc [] = refl
last_bound acc (p ∷ ps) =
    next_bound acc p ps (length ps)
    ∙ last_bound (acc + length p) ps
    ∙ omega (arith, length-append p (joined ps))

piece_at :
    (before : List ℕ) (ps : List (List ℕ)) (i : ℕ)
    → i < length ps
    → slice (before ++ joined ps) (get_or (bounds (length before) ps) i 0) (length (get_or ps i []))
      ≡ get_or ps i []
piece_at before [] i h = absurd (omega arith)
piece_at before (p ∷ ps) zero h =
    ap (take (length p)) (drop-length-append (length before) before (p ++ joined ps) refl)
    ∙ take-length-append (length p) p (joined ps) refl
piece_at before (p ∷ ps) (suc i) h =
    ap (λ k. slice (before ++ (p ++ joined ps)) k (length (get_or ps i [])))
      (next_bound (length before) p ps i
        ∙ ap (λ n. get_or (bounds n ps) i 0) (sym (length-append before p)))
    ∙ ap (λ v. slice v (get_or (bounds (length (before ++ p)) ps) i 0) (length (get_or ps i [])))
        (sym (append_assoc before p (joined ps)))
    ∙ piece_at (before ++ p) ps i (omega arith)

abbrev kept : ℕ → List ℕ → ℕ → List ℕ
kept n rows i = keep (λ row. row % n == i) rows

abbrev pieces : ℕ → List ℕ → List (List ℕ)
pieces n rows = map (kept n rows) (range 0 n)

length-pieces : (n : ℕ) (rows : List ℕ) → length (pieces n rows) ≡ n
length-pieces n rows = length-map (kept n rows) (range 0 n) ∙ length-range 0 n

pieces_at : (n : ℕ) (rows : List ℕ) (i : ℕ) → i < n → get_or (pieces n rows) i [] ≡ kept n rows i
pieces_at n rows i h =
    get_or-map-range (kept n rows) [] 0 n i h ∙ ap (kept n rows) {x = 0 + i} {y = i} (omega arith)

pieces_rows : (n : ℕ) (rows : List ℕ) → 0 < n → Perm (joined (pieces n rows)) rows
pieces_rows n rows h =
    List.Perm.trans (same-Perm (flat_map-map (λ p. p) (kept n rows) (range 0 n))) (
      List.Perm.trans
        (flat_map_swap-Perm (λ i row. if row % n == i then row ∷ [] else []) (range 0 n) rows)
        (same-Perm (each_row rows)))
  where
    each_row :
        (rows : List ℕ)
        → flat_map (λ row. flat_map (λ i. if row % n == i then row ∷ [] else []) (range 0 n)) rows
          ≡ rows
    each_row [] = refl
    each_row (row ∷ rows) =
        ap₂ ◌++◌
          (flat_map-range_single (λ i. row ∷ []) (row % n) 0 n (omega arith)
            (omega (arith, mod-lt row h)))
          (each_row rows)

length-pieces_rows : (n : ℕ) (rows : List ℕ) → 0 < n → length (joined (pieces n rows)) ≡ length rows
length-pieces_rows n rows h = length-Perm (pieces_rows n rows h)

abbrev remainder_partition : ℕ → ℕ → List ℕ → List ℕ × List ℕ
remainder_partition seed zero rows = (rows, [])
remainder_partition seed (suc n) rows =
    (joined (pieces (suc n) rows), starts 0 (pieces (suc n) rows))

remainder-Splits :
    (n : ℕ) (rows : List ℕ)
    → Splits (suc n) (joined (pieces (suc n) rows)) (bounds 0 (pieces (suc n) rows))
remainder-Splits n rows = record {
  climbs = λ i h.
      omega (arith, climb 0 (pieces (suc n) rows) i (omega (arith, length-pieces (suc n) rows)));
  ends = omega (
    arith,
    ap (λ k. get_or (bounds 0 (pieces (suc n) rows)) k 0) (sym (length-pieces (suc n) rows)),
    last_bound 0 (pieces (suc n) rows),
  );
}

remainder_parts :
    (n : ℕ) (rows : List ℕ) (i : ℕ)
    → i < suc n
    → rows_at (joined (pieces (suc n) rows)) (bounds 0 (pieces (suc n) rows)) i
      ≡ kept (suc n) rows i
remainder_parts n rows i h =
    let at : i < length (pieces (suc n) rows) = omega (arith, length-pieces (suc n) rows) in
    ap (slice (joined (pieces (suc n) rows)) (get_or (bounds 0 (pieces (suc n) rows)) i 0))
      (omega (arith, climb 0 (pieces (suc n) rows) i at))
    ∙ piece_at [] (pieces (suc n) rows) i at
    ∙ pieces_at (suc n) rows i h

abbrev Parts : ℕ → List ℕ → List ℕ → List ℕ → ℕ → Type 0
Parts n rows hashed offsets i = Perm (rows_at hashed offsets i) (keep (λ row. row % n == i) rows)

last_zero : (ps : List (List ℕ)) → bounds 0 ps ≡ starts 0 ps ++ length (joined ps) ∷ []
last_zero ps =
    ap (λ k. starts 0 ps ++ k ∷ []) {x = 0 + length (joined ps)} {y = length (joined ps)}
      (omega arith)

pub all_rows :
    (seed n : ℕ) (rows : List ℕ) → length (remainder_partition seed n rows).0 ≡ length rows
all_rows seed zero rows = refl
all_rows seed (suc n) rows = length-pieces_rows (suc n) rows (omega arith)

pub splits :
    (seed n : ℕ) (rows : List ℕ)
    → let (hashed, offsets) = remainder_partition seed n rows in
      Splits n hashed (offsets ++ length hashed ∷ [])
splits seed zero rows = record { climbs = λ i h. absurd (omega arith); ends = omega arith }
splits seed (suc n) rows =
    subst (Splits (suc n) (joined (pieces (suc n) rows))) (last_zero (pieces (suc n) rows))
      (remainder-Splits n rows)

pub parts :
    (seed n : ℕ) (rows : List ℕ) (i : ℕ)
    → i < n
    → let (hashed, offsets) = remainder_partition seed n rows in
      Perm (rows_at hashed (offsets ++ length hashed ∷ []) i) (keep (λ row. row % n == i) rows)
parts seed zero rows i h = absurd (omega arith)
parts seed (suc n) rows i h =
    subst (λ o. Parts (suc n) rows (joined (pieces (suc n) rows)) o i)
      (last_zero (pieces (suc n) rows)) (same-Perm (remainder_parts n rows i h))

-- Numbers in bins by their remainders.
abbrev pub by_remainder : HashPartition ℕ
by_remainder = record {
  bin = λ seed n row. row % n;
  hash_partition = remainder_partition;
  in_range = λ seed n row h. mod-lt row h;
  all_rows = all_rows;
  splits = splits;
  parts = parts;
}

-- An exchange that gathers the parts.
abbrev pub gathering : Exchange ℕ
gathering = record {
  all_to_all = λ groups tables offsets r. some (
      flat_map
        (λ i.
          let k = get_global_rank (groups r) i in
          rows_at (tables k) (offsets k) (get_local_idx (groups r)))
        (range 0 (size (groups r))));
  gathers = λ groups tables offsets r c h. refl;
}

abbrev equal_columns : ℕ → List (Joined ℕ ℕ) → Bool
equal_columns n [] = true
equal_columns n (j ∷ js) = (j.num_columns == n) && equal_columns n js

abbrev concatenation : List (Joined ℕ ℕ) → Option (Joined ℕ ℕ)
concatenation [] = some (record { num_columns = 0; rows = [] })
concatenation (j ∷ js) =
    if equal_columns j.num_columns js
    then some (record { num_columns = j.num_columns; rows = flat_map (λ j. j.rows) (j ∷ js) })
    else none

all_equal : (n : ℕ) (js : List (Joined ℕ ℕ)) → HaveColumns n js → equal_columns n js ≡ true
all_equal n [] h = refl
all_equal n (j ∷ js) h = ground (arith, h.0, all_equal n js h.1)

pub concatenates :
    (n : ℕ) (j : Joined ℕ ℕ) (js : List (Joined ℕ ℕ))
    → HaveColumns n (j ∷ js)
    → concatenation (j ∷ js)
      ≡ some (record { num_columns = n; rows = flat_map (λ j. j.rows) (j ∷ js) })
concatenates n j js h =
    if_true _ none (ap (λ k. equal_columns k js) h.0 ∙ all_equal n js h.1)
    ∙ ap (λ k. some (record { num_columns = k; rows = flat_map (λ j. j.rows) (j ∷ js) })) h.0

both : (a b : Bool) → (a && b) ≡ true → (a ≡ true) × (b ≡ true)
both true b e = (refl, e)
both false b e = cc

equal_at :
    (f : ℕ → Joined ℕ ℕ) (n b k i : ℕ)
    → b ≤ i
    → i < b + k
    → equal_columns n (map f (range b k)) ≡ true
    → (f i).num_columns ≡ n
equal_at f n b zero i p q e = absurd (omega arith)
equal_at f n b (suc k) i p q e =
    let (first, rest) = both ((f b).num_columns == n) _ e in
    elim (ℕ_discrete i b) [
      | yes at ↦ ap (λ j. (f j).num_columns) at ∙ (==_iff _ n).0 first
      | no ne ↦ equal_at f n (suc b) k i (omega arith) (omega arith) rest
    ]

pub refuses :
    (f : ℕ → Joined ℕ ℕ) (k i j : ℕ)
    → i < k
    → j < k
    → (f i).num_columns ≢ (f j).num_columns
    → concatenation (map f (range 0 k)) ≡ none
refuses f zero i j p q ne = absurd (omega arith)
refuses f (suc k) i j p q ne =
    elim (Bool-cases (equal_columns (f 0).num_columns (map f (range 1 k)))) [
      | inl same ↦ absurd (ne (at i p same ∙ sym (at j q same)))
      | inr differ ↦ if_false _ none differ
    ]
  where
    at :
        (i : ℕ)
        → i < suc k
        → equal_columns (f 0).num_columns (map f (range 1 k)) ≡ true
        → (f i).num_columns ≡ (f 0).num_columns
    at zero h same = refl
    at (suc i) h same = equal_at f (f 0).num_columns 1 k (suc i) (omega arith) (omega arith) same

-- A join that gives back the other table, next to zeros, where one table is empty.
abbrev pub equi_rows : List ℕ → List ℕ → List (ℕ × ℕ)
equi_rows [] right = map (λ r. (0, r)) right
equi_rows (l ∷ left) [] = map (λ l. (l, 0)) (l ∷ left)
equi_rows (l ∷ left) (r ∷ right) = join (λ l r. l == r) (l ∷ left) (r ∷ right)

pub equi_rows_join :
    (left right : List ℕ)
    → 0 < length left
    → 0 < length right
    → List.Perm (equi_rows left right) (join (λ l r. l == r) left right)
equi_rows_join [] right h q = absurd (omega arith)
equi_rows_join (l ∷ left) [] h q = absurd (omega arith)
equi_rows_join (l ∷ left) (r ∷ right) h q = List.Perm.refl _

-- Equal numbers match, and a result has two columns.
abbrev pub equi_join : Cudf ℕ ℕ
equi_join = record {
  matches = λ l r. l == r;
  inner_join = λ left right. record { num_columns = 2; rows = equi_rows left right };
  columns = 2;
  has_columns = omega arith;
  joins = equi_rows_join;
  same_columns = λ left right p q. refl;
  concatenate = concatenation;
  concatenates = concatenates;
  refuses = refuses;
}
