-- ===== src/Communicator.antt =====
-- communicator.hpp: the interface `Communicator`, as the calls that a rank makes on it, and what
-- the transport underneath it does with the calls of all ranks.
pub mod Delivery
pub mod Tag
pub mod Nccl
use distributed_join.Prelude.{
  ℕ, ◌*◌, ◌≡◌, Option, none, some, List, [], ◌∷◌, ◌++◌, ◌==◌, if◌then◌else◌, length, set, get_or,
}
use distributed_join.Prelude.Slices.{write_at}
pub use distributed_join.Prelude.{◌>>=◌}

-- One call of a method. `send` carries the items at the address that it is given; a receive names
-- one of the rank's buffers and a place in it.
pub data Call (A : Type 0) : Type 0 where
  start : Call A
  stop : Call A
  send : List A → ℕ → ℕ → ℕ → Call A
  recv : ℕ → ℕ → ℕ → ℕ → ℕ → Call A

module _ {A : Type 0} where
  -- The messages to rank `dest` among a rank's calls, oldest first.
  abbrev pub sent_to : ℕ → List (Call A) → List (List A)
  sent_to dest [] = []
  sent_to dest (start ∷ cs) = sent_to dest cs
  sent_to dest (stop ∷ cs) = sent_to dest cs
  sent_to dest (send payload count element_size d ∷ cs) =
      let rest = sent_to dest cs in if d == dest then payload ∷ rest else rest
  sent_to dest (recv buffer offset count element_size source ∷ cs) = sent_to dest cs

-- UCX and NCCL: which messages the receives of rank `r` from rank `s` get, in the order of the
-- receives, given the calls of all ranks. Messages between two ranks neither overtake one another
-- nor change.
pub record Transport (A : Type 0) : Type 0 where
  pub inbox : (ℕ → List (Call A)) → ℕ → ℕ → List (List A)
  pub in_order : (calls : ℕ → List (Call A)) (r s : ℕ) → inbox calls r s ≡ sent_to r (calls s)

abbrev pub Inbox : Type 0 → Type 0
Inbox A = ℕ → List (List A)

-- The rank's buffers, beside the messages that have not been received.
abbrev pub Memory : Type 0 → Type 0
Memory A = Inbox A × List (List A)

module _ {A : Type 0} where
  abbrev pub tail : List (List A) → List (List A)
  tail [] = []
  tail (m ∷ ms) = ms

  abbrev pub pop : Inbox A → ℕ → Inbox A
  pop inbox s t = if s == t then tail (inbox t) else inbox t

  -- One receive. `none` where no message is there, or one of another size than the receive's.
  unfoldable pub receive : ℕ → ℕ → ℕ → ℕ → ℕ → Memory A → Option (Memory A)
  receive buffer offset count element_size source (inbox, buffers) = elim (inbox source) [
    | [] ↦ none
    | m ∷ ms ↦
        if length m == count * element_size
        then some
            (pop inbox source, set buffers buffer (write_at (get_or buffers buffer []) offset m))
        else none
  ]

  abbrev pub call : Call A → Memory A → Option (Memory A)
  call start m = some m
  call stop m = some m
  call (send payload count element_size dest) m = some m
  call (recv buffer offset count element_size source) m =
      receive buffer offset count element_size source m

  -- The receives of a rank, when all messages have been sent.
  unfoldable pub complete : List (Call A) → Memory A → Option (Memory A)
  complete [] m = some m
  complete (c ∷ cs) m = call c m >>= complete cs
