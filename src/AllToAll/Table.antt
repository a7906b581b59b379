-- ===== src/AllToAll/Table.antt =====
-- all_to_all_comm.cpp: `AllToAllCommunicator`, for tables of columns of fixed width.
pub mod Copied
pub mod Launch
use distributed_join.Prelude.{
  ℕ, ◌+◌, ◌-◌, ◌*◌, ◌≡◌, Bool, true, false, not, Option, some, List, [], ◌∷◌, map, if◌then◌else◌,
  length, get_or, replicate, ◌>>=◌,
}
use distributed_join.Prelude.Ranges.{range, each}
use distributed_join.Prelude.Segments.{last_or, diffs}
use distributed_join.Prelude.Slices.{slice, write_at}
use distributed_join.Group.{CommunicationGroup, get_local_idx}
use distributed_join.Communicator.{Transport}
use distributed_join.Compression.{
  Leaf, TypeId, CompressionMethod, ColumnOptions, method, format, default_options, Nvcomp,
}
use distributed_join.AllToAll.{communicate_sizes}
use distributed_join.AllToAll.Comm.{
  AllToAllCommBuffer, all_to_all_comm, postprocess_all_to_all_comm,
}

-- The members of the class, on one rank.
pub record AllToAllCommunicator (A : Type 0) : Type 0 where
  pub input_table : List (Leaf A)
  pub send_offsets : List ℕ
  pub recv_offsets : List ℕ
  pub compression_options : List ColumnOptions
  pub explicit_copy_to_current_rank : Bool

module _ {A : Type 0} (size_of : TypeId → ℕ) (junk : A) where
  -- The constructor on rank `r`, over the tables and the offsets of all ranks.
  unfoldable pub all_to_all_communicator :
      Transport ℕ
      → (ℕ → CommunicationGroup)
      → (ℕ → List (Leaf A))
      → (ℕ → List ℕ)
      → List ColumnOptions
      → Bool
      → ℕ
      → Option (AllToAllCommunicator A)
  all_to_all_communicator mpi groups tables offsets options explicit_copy r = do
    recv_offsets ← communicate_sizes mpi groups offsets r
    some (record {
      input_table = tables r;
      send_offsets = offsets r;
      recv_offsets = recv_offsets;
      compression_options = options;
      explicit_copy_to_current_rank = explicit_copy;
    })

  abbrev pub no_column : Leaf A
  no_column = record { dtype = TypeId.int8; items = [] }

  abbrev pub allocated_column : List ℕ → Leaf A → Leaf A
  allocated_column recv_offsets column = record column {
    items = replicate (last_or recv_offsets 0 * size_of column.dtype) junk;
  }

  unfoldable pub allocate_communicated_table_helper : List (Leaf A) → List ℕ → List (Leaf A)
  allocate_communicated_table_helper input_table recv_offsets =
      map (allocated_column recv_offsets) input_table

  -- `copy_table_to_current_rank`, for one column.
  unfoldable pub copy_column_to_current_rank :
      CommunicationGroup → List ℕ → List ℕ → Leaf A → Leaf A → Leaf A
  copy_column_to_current_rank g send_offsets recv_offsets column communicated =
      let local_idx = get_local_idx g in
      let dtype_size = size_of column.dtype in
      record communicated {
        items = write_at communicated.items (get_or recv_offsets local_idx 0 * dtype_size) (
            slice column.items (get_or send_offsets local_idx 0 * dtype_size)
              (diffs recv_offsets local_idx * dtype_size));
      }

  unfoldable pub copy_table_to_current_rank :
      CommunicationGroup → List ℕ → List ℕ → List (Leaf A) → List (Leaf A) → List (Leaf A)
  copy_table_to_current_rank g send_offsets recv_offsets input_table communicated_table =
      map
        (λ icol.
          copy_column_to_current_rank g send_offsets recv_offsets
            (get_or input_table icol no_column) (get_or communicated_table icol no_column))
        (range 0 (length input_table))

  unfoldable pub allocate_communicated_table :
      CommunicationGroup → AllToAllCommunicator A → List (Leaf A)
  allocate_communicated_table g c =
      let communicated_table = allocate_communicated_table_helper c.input_table c.recv_offsets in
      if c.explicit_copy_to_current_rank
      then copy_table_to_current_rank g c.send_offsets c.recv_offsets c.input_table
          communicated_table
      else communicated_table

  -- `append_to_all_to_all_comm_buffers`, to no buffers.
  unfoldable pub append_to_all_to_all_comm_buffers :
      AllToAllCommunicator A → List (Leaf A) → List (AllToAllCommBuffer A)
  append_to_all_to_all_comm_buffers c communicated_table =
      map
        (λ icol.
          let input = get_or c.input_table icol no_column in
          let options = get_or c.compression_options icol default_options in
          record {
            send_buffer = input.items;
            recv_buffer = (get_or communicated_table icol no_column).items;
            send_offsets = c.send_offsets;
            recv_offsets = c.recv_offsets;
            dtype = input.dtype;
            compression_method = method options;
            cascaded_format = format options;
            compressed_send_buffer = [];
            compressed_recv_buffer = [];
            compressed_send_offsets = [];
            compressed_recv_offsets = [];
          })
        (range 0 (length c.input_table))

  -- `launch_communication` on rank `r`, over the objects and the allocated tables of all ranks.
  unfoldable pub launch_communication :
      Nvcomp A
      → Transport A
      → Transport ℕ
      → (ℕ → CommunicationGroup)
      → Bool
      → (ℕ → AllToAllCommunicator A)
      → (ℕ → List (Leaf A))
      → ℕ
      → Option (List (Leaf A))
  launch_communication nvcomp t mpi groups batch objects communicated r = do
    let include = not (objects r).explicit_copy_to_current_rank
    buffers ←
        all_to_all_comm nvcomp size_of junk t mpi groups batch include
          (λ k. append_to_all_to_all_comm_buffers (objects k) (communicated k)) r
    done ← postprocess_all_to_all_comm nvcomp size_of junk (groups r) r include buffers
    some (map (λ b. record { dtype = b.dtype; items = b.recv_buffer }) done)
