-- ===== src/AllToAll/Table/Copied.antt =====
-- What the table holds for this rank before the communication.
use distributed_join.Prelude.{
  ℕ, ◌+◌, ◌*◌, ◌≤◌, ◌<◌, ◌≡◌, refl, sym, ap, ◌∙◌, arith, true, List, length, get_or, take,
  replicate, drop, length-append, length-take, length-drop, length-replicate, take-length-append,
  drop-length-append, if_true,
}
use distributed_join.Prelude.Ranges.{get_or-map-range, get_or-map}
use distributed_join.Prelude.Segments.{last_or, diffs}
use distributed_join.Prelude.Slices.{slice, write_at, length-slice, scaled_fits}
use distributed_join.Group.{CommunicationGroup, get_local_idx}
use distributed_join.Compression.{Leaf, TypeId}
use distributed_join.AllToAll.Table.{
  AllToAllCommunicator, allocate_communicated_table, allocate_communicated_table_helper,
  allocated_column, copy_table_to_current_rank, copy_column_to_current_rank, no_column,
}

slice-write_at :
    {A : Type 0} (xs ys : List A) (off : ℕ)
    → off + length ys ≤ length xs
    → slice (write_at xs off ys) off (length ys) ≡ ys
unfolding write_at
slice-write_at xs ys off h =
    ap (take (length ys))
      (drop-length-append off (take off xs) _ (omega (arith, length-take off xs)))
    ∙ take-length-append (length ys) ys _ refl

length-write_at :
    {A : Type 0} (xs ys : List A) (off : ℕ)
    → off + length ys ≤ length xs
    → length (write_at xs off ys) ≡ length xs
unfolding write_at
length-write_at xs ys off h =
    length-append (take off xs) _
    ∙ omega (
      arith,
      length-take off xs,
      length-append ys (drop (off + length ys) xs),
      length-drop (off + length ys) xs,
    )

module _ {A : Type 0} (size_of : TypeId → ℕ) (junk : A) (g : CommunicationGroup)
    (c : AllToAllCommunicator A) where
  abbrev me : ℕ
  me = get_local_idx g

  abbrev input : ℕ → Leaf A
  input icol = get_or c.input_table icol (no_column size_of junk)

  abbrev width : ℕ → ℕ
  width icol = size_of (input icol).dtype

  module _ (icol : ℕ) (in_table : icol < length c.input_table)
      (copying : c.explicit_copy_to_current_rank ≡ true)
      (ends : get_or c.recv_offsets me 0 + diffs c.recv_offsets me ≤ last_or c.recv_offsets 0)
      (fits : get_or c.send_offsets me 0 * width icol + diffs c.recv_offsets me * width icol
        ≤ length (input icol).items) where
    place : ℕ
    place = get_or c.recv_offsets me 0 * width icol

    count : ℕ
    count = diffs c.recv_offsets me * width icol

    own : List A
    own = slice (input icol).items (get_or c.send_offsets me 0 * width icol) count

    allocated : List A
    allocated = replicate (last_or c.recv_offsets 0 * width icol) junk

    sized : length own ≡ count
    unfolding own count
    sized = length-slice (input icol).items (get_or c.send_offsets me 0 * width icol) _ fits

    room : place + length own ≤ length allocated
    unfolding place count allocated
    room = omega (
      arith,
      sized,
      length-replicate (last_or c.recv_offsets 0 * width icol) junk,
      scaled_fits (get_or c.recv_offsets me 0) (diffs c.recv_offsets me) (last_or c.recv_offsets 0)
          (width icol) (last_or c.recv_offsets 0 * width icol) ends refl,
    )

    copied : ℕ → Leaf A
    copied icol =
        copy_column_to_current_rank size_of junk g c.send_offsets c.recv_offsets (input icol) (
          get_or (allocate_communicated_table_helper size_of junk c.input_table c.recv_offsets) icol
            (no_column size_of junk))

    found :
        (get_or (allocate_communicated_table size_of junk g c) icol (no_column size_of junk)).items
        ≡ write_at allocated place own
    unfolding allocate_communicated_table allocate_communicated_table_helper
        copy_table_to_current_rank copy_column_to_current_rank copied place own allocated count
    found =
        ap (λ t. (get_or t icol (no_column size_of junk)).items) (if_true _ _ copying)
        ∙ ap (λ (l : Leaf A). l.items)
            (get_or-map-range copied (no_column size_of junk) 0 (length c.input_table) icol in_table
              ∙ ap copied {x = 0 + icol} {y = icol} (omega arith)
              ∙ ap
                  (copy_column_to_current_rank size_of junk g c.send_offsets c.recv_offsets
                    (input icol))
                  (get_or-map (allocated_column size_of junk c.recv_offsets) c.input_table icol
                    (no_column size_of junk) (no_column size_of junk) in_table))

    pub length-allocate_communicated_table :
        length
          (get_or
            (allocate_communicated_table size_of junk g c)
            icol
            (no_column size_of junk)).items
        ≡ last_or c.recv_offsets 0 * width icol
    unfolding allocated
    length-allocate_communicated_table =
        ap length found
        ∙ length-write_at allocated own place room
        ∙ length-replicate (last_or c.recv_offsets 0 * width icol) junk

    pub own_rows_copied :
        slice
          (get_or
            (allocate_communicated_table size_of junk g c)
            icol
            (no_column size_of junk)).items
          (get_or c.recv_offsets me 0 * width icol)
          (diffs c.recv_offsets me * width icol)
        ≡ slice
            (input icol).items
            (get_or c.send_offsets me 0 * width icol)
            (diffs c.recv_offsets me * width icol)
    unfolding place count own
    own_rows_copied =
        ap (λ items. slice items place count) found
        ∙ ap (slice (write_at allocated place own) place) (sym sized)
        ∙ slice-write_at allocated own place room

    -- With an explicit copy, a column of fixed width of the allocated table holds the rank's own rows
    -- where the communication leaves out those of its index, if these rows end in the input, and
    -- their places in the table.
    pub allocate_communicated_table_lem :
        ¬ ((input icol).dtype ≡ TypeId.string)
        → slice
            (get_or
              (allocate_communicated_table size_of junk g c)
              icol
              (no_column size_of junk)).items
            (get_or c.recv_offsets me 0 * width icol)
            (diffs c.recv_offsets me * width icol)
          ≡ slice
              (input icol).items
              (get_or c.send_offsets me 0 * width icol)
              (diffs c.recv_offsets me * width icol)
    allocate_communicated_table_lem fixed_width = own_rows_copied
