-- ===== src/Lib.antt =====
-- The distributed hash join of cuDF tables over the GPUs of several nodes, as a library of models.
--
-- The program splits tables over the ranks of MPI_COMM_WORLD, exchanges rows by an all-to-all
-- communication, and joins what each rank then holds. A rank's program is a list of calls on a
-- communicator (Call in Communicator); the transport underneath (UCX or NCCL) is a parameter, which
-- delivers the messages between two ranks in the order of the sends. A buffer is the list of its
-- items, and an operation that fails (an assertion, an exception, a receive whose message is missing
-- or of another size) returns none.
--
--   Group: CommunicationGroup of src/all_to_all_comm.hpp; Layout and Collective say where the members
--     of a group lie.
--   Communicator: the interface of src/communicator.hpp; complete runs the receives of a rank against
--     the messages that were sent to it. Delivery holds the loops of sends and receives, Tag
--     get_comm_tag and Nccl the buffers of NCCLCommunicator, of src/communicator.cpp.
--   DistributeTable: get_local_table_size, distribute_cols, distribute_table and collect_tables of
--     src/distribute_table.cpp, for columns of fixed width; a broadcast type loses its scale.
--   AllToAll: communicate_sizes, send_data_by_offset, recv_data_by_offset, all_to_all_comm and
--     postprocess_all_to_all_comm of src/all_to_all_comm.cpp (Comm/Plain and Comm/Compressed for the
--     two kinds of buffers, Comm/Staged for what they share); in Warmup, warmup_all_to_all; in
--     Table, AllToAllCommunicator for columns of fixed width.
--   Compression: src/compression.hpp and src/compression.cpp; nvcomp is a parameter that restores what
--     it compressed.
--   StringsColumn: src/strings_column.cu; a column of strings is the number of its rows and its offsets.
--     Sent: the sizes that the constructor of AllToAllCommunicator has to send.
--   Setup: src/setup.cpp; Setup/Registered: src/registered_memory_resource.hpp.
--   Nvlink: get_nvl_partition_size of src/distributed_join.cpp.
--   Shuffle: shuffle_on of src/shuffle_on.cpp on the level of rows, with the interface Exchange of
--     AllToAllCommunicator: each member gets its part of each table; Filled fills it with the model of
--     the class in AllToAll/Table, for a column of one-item rows that is not compressed.
--   Join: distributed_inner_join of src/distributed_join.cpp on the level of rows; cudf's hash
--     partition, inner join and concatenation are parameters (HashPartition, Cudf); nothing is
--     assumed of the inner join where a table is empty.
--   Join/Threads: inner_join_func of src/distributed_join.cpp, with the flags that the main thread sets
--     when it has received a batch, as a step relation in which the two threads take turns in any way.
--     Waiting for a flag is a thread that takes no step.
--   Ucx: send, recv and their handlers send_handler and recv_handler of UCXBufferCommunicator of
--     src/communicator.cpp, as steps of a transfer in any interleaving of completed sends and arriving
--     messages; in Cache, its communication buffers and the pending requests of MPILikeCommunicator.
--   GenerateDataset: generate_dataset/generate_dataset.cuh: the threads of init_build_tbl, which
--     draw keys from one array in any interleaving, and init_probe_tbl; the random numbers are
--     parameters.
--   Prelude: lists, slices, running sums, counted loops, and the binary digits that the parts share.
--   Tests: runs at concrete inputs.
--
-- All ranks' programs are given at once, as functions of the rank, so an operation on one rank can be
-- run against what the others send. Numbers are natural numbers: counts and offsets of the program are
-- 32 and 64 bit integers that it never lets become negative here, and their overflow is not modelled.
-- Memory that has been allocated and not written is filled with a parameter (junk), on which no result
-- depends. Loops are structural recursion over the list of their indices; the search for the rounded up
-- square root of n stands for the standard library's and has n steps as fuel, which is enough, and
-- send_handler has one step for each element and one more, enough where a communication buffer holds an
-- element. Timing
-- output, CUDA streams and their synchronisation, the pinned buffer for the compressed sizes, and the
-- benchmarks are not modelled.
-- Not modelled either: the start-up and shutdown of UCX and NCCL and the requests of UCXCommunicator,
-- which pass to those libraries; the branches of AllToAllCommunicator for string columns; and the test tables of
-- src/generate_table.cuh.
pub mod Prelude
pub mod Group
pub mod GenerateDataset
pub mod Communicator
pub mod DistributeTable
pub mod AllToAll
pub mod Compression
pub mod Join
pub mod Nvlink
pub mod Setup
pub mod Ucx
pub mod StringsColumn
pub mod Shuffle
pub mod Tests
