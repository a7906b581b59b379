-- ===== src/Tests.antt =====
-- Runs of the definitions at concrete inputs, and the theorems at inputs where their conditions hold.
mod Group
mod Table
mod Exchange
mod Options
mod Bins
mod Join
mod Wires
mod Launch
mod Strings
mod Setup
mod Ucx
mod Threads
mod Cache
mod Filled
mod Compressed
mod Lottery
use distributed_join.Prelude.{ℕ, ◌+◌, ◌*◌, ◌/◌, ◌%◌, ◌≡◌, refl, some, List, [], ◌∷◌, map}
use distributed_join.Prelude.Ranges.{range}
use distributed_join.Group.{CommunicationGroup, communication_group}
use distributed_join.Communicator.{Transport, sent_to}
use distributed_join.DistributeTable.{Mpi}
use distributed_join.Compression.{Nvcomp, default_format, Broadcast}

-- A transport that keeps what is sent in its order.
abbrev pub fifo : Transport ℕ
fifo = record { inbox = λ calls r s. sent_to r (calls s); in_order = λ calls r s. refl }

abbrev pub world : Mpi
world = record {
  bcast = λ f r. f 0;
  bcast_root = λ f r. refl;
  gather = λ f n. map f (range 0 n);
  gather_all = λ f n. refl;
}

-- Grids of four ranks with stride 2: rank 2 is with rank 0.
abbrev pub pairs : ℕ → CommunicationGroup
pairs k = record { mpi_rank = k; group_start = k / 4 * 4 + k % 2; grid_size = 4; stride = 2 }

pub pairs_made : (k : ℕ) → communication_group k 4 2 ≡ some (pairs k)
unfolding communication_group
pairs_made k = refl

-- A compressor that leaves its input as it is.
abbrev pub identity_codec : Nvcomp ℕ
identity_codec = record {
  select_config = λ ty xs. default_format;
  compress = λ ty f xs. xs;
  decompress = λ ty xs. xs;
  restores = λ ty f xs. refl;
}

abbrev pub from_root : {B : Type 0} → Broadcast B
from_root = record { bcast = λ f r. f 0; root = λ f r. refl }
