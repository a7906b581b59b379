-- ===== src/AllToAll/Messages.antt =====
-- Any number of buffers exchanged between the ranks of a group: which message each receive gets,
-- and what the receive buffers hold at the end.
use distributed_join.Prelude.{
  ℕ, zero, suc, ◌+◌, ◌-◌, ◌*◌, ◌≤◌, ◌<◌, ◌≡◌, refl, sym, ap, ap₂, ◌∙◌, Bool, true, false, not, ◌&&◌,
  Option, none, some, List, [], ◌∷◌, ◌++◌, map, append-nil, arith, ◌==◌, if◌then◌else◌, length,
  get_or, set, length-set, get_or-set_self, get_or-set_ne, take_all, leb, ltb, ℕ_discrete,
}
use distributed_join.Prelude.Ranges.{range, flat_map}
use distributed_join.Prelude.Segments.{diffs, slices_cover}
use distributed_join.Prelude.Slices.{slice, length-slice}
use distributed_join.Group.{CommunicationGroup, size, get_global_rank, get_local_idx}
use distributed_join.Group.Collective.{IsCollective}
use distributed_join.Communicator.{
  Call, start, stop, sent_to, Transport, Inbox, Memory, complete, ◌>>=◌, tail,
}
use distributed_join.Communicator.Delivery.{
  sent_to-append, complete-append, receive_loop, receive_round, popped, popped_at, send_round,
  sent_by_rounds, complete_sends, sent_by_receives,
}
use distributed_join.AllToAll.{send_data_by_offset, recv_data_by_offset}

-- The calls for one buffer, in a group of their own unless the communicator groups by batch.
abbrev pub grouped : {A : Type 0} → Bool → List (Call A) → List (Call A)
grouped batch cs = (if batch then [] else start ∷ []) ++ (cs ++ (if batch then [] else stop ∷ []))

sent_to-grouped :
    {A : Type 0} (d : ℕ) (batch : Bool) (cs : List (Call A))
    → sent_to d (grouped batch cs) ≡ sent_to d cs
sent_to-grouped d true cs = ap (sent_to d) (append-nil cs)
sent_to-grouped d false cs = sent_to-append d cs (stop ∷ []) ∙ append-nil _

complete-grouped :
    {A : Type 0} (batch : Bool) (cs : List (Call A)) (m : Memory A)
    → complete (grouped batch cs) m ≡ complete cs m
unfolding complete
complete-grouped {A} true cs m = ap (λ u. complete u m) (append-nil cs)
complete-grouped {A} false cs m = complete-append cs (stop ∷ []) m ∙ stopped (complete cs m)
  where
    stopped : (o : Option (Memory A)) → (o >>= complete (stop ∷ [])) ≡ o
    stopped none = refl
    stopped (some x) = refl

-- What a rank puts on the wire for one buffer, and where it puts what it gets.
pub record Wire (A : Type 0) : Type 0 where
  pub items : List A
  pub send_offsets : List ℕ
  pub recv_offsets : List ℕ
  pub item_size : ℕ

abbrev pub wire_calls :
    {A : Type 0} → Bool → CommunicationGroup → ℕ → Bool → ℕ → Wire A → List (Call A)
wire_calls batch g mpi_rank include b x = grouped batch (
    send_data_by_offset x.items x.send_offsets x.item_size g mpi_rank include
    ++ recv_data_by_offset b x.recv_offsets x.item_size g mpi_rank include)

-- The offsets fit a buffer for the pieces of `n` members.
pub record Fits {A : Type 0} (n : ℕ) (x : Wire A) (buffer : List A) : Type 0 where
  pub first : get_or x.recv_offsets 0 0 ≡ 0
  pub climbs : (k : ℕ) → k < n → get_or x.recv_offsets k 0 ≤ get_or x.recv_offsets (k + 1) 0
  pub whole : length buffer ≡ get_or x.recv_offsets n 0 * x.item_size

module _ {A : Type 0} (t : Transport A) (groups : ℕ → CommunicationGroup) (batch include : Bool)
    (m : ℕ) (wires : ℕ → ℕ → Wire A) (r : ℕ) (c : IsCollective groups r) where
  abbrev member : ℕ → ℕ
  member i = get_global_rank (groups r) i

  abbrev me : ℕ
  me = get_local_idx (groups r)

  -- The member is this rank, and the rank's own piece is not exchanged.
  abbrev pub skipped : ℕ → Bool
  skipped i = not include && (r == member i)

  -- What member `i` has for this rank in buffer `b`.
  abbrev pub piece : ℕ → ℕ → List A
  piece b i =
      let x = wires (member i) b in
      slice x.items (get_or x.send_offsets me 0 * x.item_size)
        (diffs x.send_offsets me * x.item_size)

  -- The calls of a rank for all its buffers.
  abbrev pub all_calls : ℕ → List (Call A)
  all_calls k = flat_map (λ b. wire_calls batch (groups k) k include b (wires k b)) (range 0 m)

  one_message :
      (i : ℕ)
      → i < size (groups r)
      → skipped i ≡ false
      → (b : ℕ)
      → sent_to r (wire_calls batch (groups (member i)) (member i) include b (wires (member i) b))
        ≡ piece b i ∷ []
  unfolding send_data_by_offset recv_data_by_offset
  one_message i h takes b =
      sent_to-grouped r batch _
      ∙ sent_to-append r (flat_map (send_round x.item_size skips payload cnt dest) (range 0 n)) (
          flat_map
            (receive_round b x.item_size receive_skips dest
              (λ k. get_or x.recv_offsets k 0 * x.item_size) (diffs x.recv_offsets))
            (range 0 n))
      ∙ ap₂ ◌++◌
          (sent_by_rounds x.item_size skips payload cnt dest r me 0 n (omega arith)
            (omega (arith, c.same_size i h, c.me_in))
            (λ j k e. c.distinct j k (sym (c.agree i h j) ∙ e ∙ c.agree i h k)) at
            (ap (λ v. not include && (v == member i)) at ∙ takes))
          (sent_by_receives b x.item_size receive_skips dest
            (λ k. get_or x.recv_offsets k 0 * x.item_size) (diffs x.recv_offsets) r (range 0 n))
    where
      x : Wire A
      x = wires (member i) b

      n : ℕ
      n = size (groups (member i))

      dest : ℕ → ℕ
      dest k = get_global_rank (groups (member i)) k

      skips : ℕ → Bool
      skips k = not include && (dest k == member i)

      receive_skips : ℕ → Bool
      receive_skips k = not include && (member i == dest k)

      payload : ℕ → List A
      payload k =
          slice x.items (get_or x.send_offsets k 0 * x.item_size)
            (diffs x.send_offsets k * x.item_size)

      cnt : ℕ → ℕ
      cnt k = diffs x.send_offsets k

      at : dest me ≡ r
      at = c.agree i h me ∙ c.me_at

  -- The messages from a member are its pieces, one for each buffer.
  messages :
      (i : ℕ)
      → i < size (groups r)
      → skipped i ≡ false
      → (n b : ℕ)
      → sent_to r (
          flat_map
            (λ b. wire_calls batch (groups (member i)) (member i) include b (wires (member i) b))
            (range b n))
        ≡ map (λ b. piece b i) (range b n)
  messages i h takes zero b = refl
  messages i h takes (suc n) b =
      sent_to-append r
        (wire_calls batch (groups (member i)) (member i) include b (wires (member i) b)) _
      ∙ ap₂ ◌++◌ (one_message i h takes b) (messages i h takes n (suc b))

  module _ (buffers : List (List A)) (sized : length buffers ≡ m)
      (fits : (b : ℕ) → b < m → Fits (size (groups r)) (wires r b) (get_or buffers b []))
      (alike : (b i : ℕ)
        → b < m
        → i < size (groups r)
        → length (piece b i) ≡ diffs (wires r b).recv_offsets i * (wires r b).item_size) where
    abbrev pub place : ℕ → ℕ → ℕ
    place b k = get_or (wires r b).recv_offsets k 0 * (wires r b).item_size

    -- What a buffer holds at first where the piece of member `k` goes.
    abbrev pub before : ℕ → ℕ → List A
    before b k =
        slice (get_or buffers b []) (place b k)
          (diffs (wires r b).recv_offsets k * (wires r b).item_size)

    -- What a buffer holds at the end: the pieces of the members in their order, or what it held at
    -- first for a piece that is left out.
    abbrev pub gathered : ℕ → List A
    gathered b =
        flat_map (λ k. if skipped k then before b k else piece b k) (range 0 (size (groups r)))

    abbrev after : List ℕ → List (List A) → List (List A)
    after [] bs = bs
    after (b ∷ ks) bs = after ks (set bs b (gathered b))

    pub place_next :
        (b : ℕ)
        → b < m
        → (k : ℕ) → k < size (groups r)
        → place b (suc k) ≡ place b k + diffs (wires r b).recv_offsets k * (wires r b).item_size
    place_next b h k q =
        let e : get_or (wires r b).recv_offsets (k + 1) 0
            ≡ get_or (wires r b).recv_offsets (suc k) 0 =
          ap (λ j. get_or (wires r b).recv_offsets j 0) {y = suc k} (omega arith) in
        ap (λ (v : ℕ). v * (wires r b).item_size)
          {y = get_or (wires r b).recv_offsets k 0 + diffs (wires r b).recv_offsets k}
          (omega (arith, (fits b h).climbs k q, e))
        ∙ omega arith

    place_climbs :
        (b : ℕ)
        → b < m
        → (n k : ℕ) → k + n ≡ size (groups r)
        → place b k ≤ place b (size (groups r))
    place_climbs b h zero k e =
        let at : place b k ≡ place b (size (groups r)) = ap (place b) (omega arith) in omega arith
    place_climbs b h (suc n) k e =
        omega (arith, place_next b h k (omega arith), place_climbs b h n (suc k) (omega arith))

    pub length-before :
        (b : ℕ)
        → b < m
        → (k : ℕ) → k < size (groups r)
        → length (before b k) ≡ diffs (wires r b).recv_offsets k * (wires r b).item_size
    length-before b h k q = length-slice (get_or buffers b []) (place b k) _ (
        omega (
          arith,
          place_next b h k q,
          place_climbs b h (size (groups r) - suc k) (suc k) (omega arith),
          (fits b h).whole,
        ))

    pub before_covers :
        (b : ℕ) → b < m → get_or buffers b [] ≡ flat_map (before b) (range 0 (size (groups r)))
    before_covers b h = sym (
        slices_cover (get_or buffers b []) (place b)
          (λ k. diffs (wires r b).recv_offsets k * (wires r b).item_size) (size (groups r))
          (place_next b h) (size (groups r)) 0 (length (get_or buffers b [])) (omega arith)
          (omega (arith, zero_place, (fits b h).whole))
        ∙ ap (λ k. slice (get_or buffers b []) k (length (get_or buffers b []))) {y = 0} zero_place
        ∙ take_all (length (get_or buffers b [])) (get_or buffers b []) (omega arith))
      where
        zero_place : place b 0 ≡ 0
        zero_place = omega (arith, ap (λ (v : ℕ). v * (wires r b).item_size) (fits b h).first)

    abbrev my_calls : ℕ → List (Call A)
    my_calls b = wire_calls batch (groups r) r include b (wires r b)

    abbrev next_inbox : ℕ → Inbox A → Inbox A
    next_inbox b f =
        popped b (wires r b).item_size skipped member (place b) (diffs (wires r b).recv_offsets)
          (range 0 (size (groups r))) f

    -- One buffer: its calls put the pieces in their places.
    one_buffer :
        (b : ℕ) (rest : ℕ → List (List A)) (inbox : Inbox A) (bs : List (List A))
        → b < m
        → length bs ≡ m
        → get_or bs b [] ≡ get_or buffers b []
        → ((i : ℕ)
            → i < size (groups r)
            → skipped i ≡ false
            → inbox (member i) ≡ piece b i ∷ rest i)
        → complete (my_calls b) (inbox, bs) ≡ some (next_inbox b inbox, set bs b (gathered b))
    unfolding send_data_by_offset recv_data_by_offset
    one_buffer b rest inbox bs h l held got =
        complete-grouped batch _ (inbox, bs)
        ∙ complete-append (flat_map sends (range 0 (size (groups r))))
            (flat_map receives (range 0 (size (groups r)))) (inbox, bs)
        ∙ ap (λ o. o >>= complete (flat_map receives (range 0 (size (groups r)))))
            (complete_sends (wires r b).item_size send_skips payload
              (diffs (wires r b).send_offsets) member (inbox, bs) (range 0 (size (groups r))))
        ∙ receive_loop b (wires r b).item_size skipped member (place b)
            (diffs (wires r b).recv_offsets) (size (groups r)) (before b) (piece b) rest
            (λ k q. place_next b h k q ∙ ap (λ v. place b k + v) (sym (length-before b h k q)))
            (length-before b h) (λ k. alike b k h) c.distinct (size (groups r)) 0 [] inbox bs
            (omega arith) (omega arith) (held ∙ before_covers b h)
            (omega (arith, ap (λ (v : ℕ). v * (wires r b).item_size) (fits b h).first))
            (λ k _ q f. got k q f)
      where
        send_skips : ℕ → Bool
        send_skips k = not include && (member k == r)

        payload : ℕ → List A
        payload k =
            slice (wires r b).items (get_or (wires r b).send_offsets k 0 * (wires r b).item_size)
              (diffs (wires r b).send_offsets k * (wires r b).item_size)

        sends : ℕ → List (Call A)
        sends =
            send_round (wires r b).item_size send_skips payload (diffs (wires r b).send_offsets)
              member

        receives : ℕ → List (Call A)
        receives =
            receive_round b (wires r b).item_size skipped member (place b)
              (diffs (wires r b).recv_offsets)

    -- All buffers, from the buffer `b` on.
    exchange_from :
        (n b : ℕ) (inbox : Inbox A) (bs : List (List A))
        → b + n ≡ m
        → length bs ≡ m
        → ((b' : ℕ) → b ≤ b' → get_or bs b' [] ≡ get_or buffers b' [])
        → ((i : ℕ)
            → i < size (groups r)
            → skipped i ≡ false
            → inbox (member i) ≡ map (λ b. piece b i) (range b n))
        → (left : Inbox A) × (complete (flat_map my_calls (range b n)) (inbox, bs)
            ≡ some (left, after (range b n) bs))
    unfolding complete
    exchange_from zero b inbox bs e l held got = (inbox, refl)
    exchange_from (suc n) b inbox bs e l held got =
        let (left, done) =
          exchange_from n (suc b) (next_inbox b inbox) (set bs b (gathered b)) (omega arith)
            (length-set bs b (gathered b) ∙ l)
            (λ b' p.
              get_or-set_ne bs b b' (gathered b) [] (λ f. omega arith) ∙ held b' (omega arith))
            (λ i h f.
              popped_at b (wires r b).item_size skipped member (place b)
                (diffs (wires r b).recv_offsets) c.distinct i 0 (size (groups r)) inbox
                (omega arith) (omega arith) f
              ∙ ap tail (got i h f)) in
        (
          left,
          complete-append (my_calls b) (flat_map my_calls (range (suc b) n)) (inbox, bs)
              ∙ ap (λ o. o >>= complete (flat_map my_calls (range (suc b) n)))
                  (one_buffer b (λ i. map (λ b. piece b i) (range (suc b) n)) inbox bs (omega arith)
                    l (held b (omega arith)) got)
              ∙ done,
        )

    get_or-after :
        (n b : ℕ) (bs : List (List A)) (k : ℕ)
        → b + n ≡ m
        → length bs ≡ m
        → get_or (after (range b n) bs) k []
          ≡ (if leb b k && ltb k m then gathered k else get_or bs k [])
    get_or-after zero b bs k e l = ground arith
    get_or-after (suc n) b bs k e l =
        get_or-after n (suc b) (set bs b (gathered b)) k (omega arith)
          (length-set bs b (gathered b) ∙ l)
        ∙ elim (ℕ_discrete b k) [
          | yes at ↦ ground (arith, at, get_or-set_self bs b (gathered b) [] (omega arith))
          | no ne ↦ ground (arith, get_or-set_ne bs b k (gathered b) [] ne)
        ]

    -- If the groups fit together and each buffer has room by its offsets for pieces of the expected
    -- lengths, the calls of any number of buffers complete, and each buffer then holds the pieces of
    -- the members, in their order; where the rank's own piece is left out, the buffer keeps what it
    -- held at the place of this piece.
    pub exchange :
        (left : Inbox A) × (bs : List (List A)) × (complete
            (all_calls r)
            (t.inbox all_calls r, buffers)
          ≡ some (left, bs))
        × ((b : ℕ) → b < m → get_or bs b [] ≡ gathered b)
    exchange =
        let (left, done) =
          exchange_from m 0 (t.inbox all_calls r) buffers (omega arith) sized (λ _ _. refl)
            (λ i h f. t.in_order all_calls r (member i) ∙ messages i h f m 0) in
        (
          left,
          after (range 0 m) buffers,
          done,
          λ b h. get_or-after m 0 buffers b (omega arith) sized ∙ ground arith,
        )
