-- ===== src/Lib.antt =====
-- A model of a Google File System in C++: one master with all metadata in memory and an
-- operation log, chunkservers with the chunks, and a client library.
--
-- The parts and their files:
-- - Base: native numbers with Boolean tests, lists, bytes, integers, and maps as association
--   lists in the order of `std::map`, with the lemmas that the parts share.
-- - Common.Paths models src/common/paths.cc: `IsValidPath` is `is_valid_path`, `ParentOf` is
--   `parent_of`, and so on in snake_case. Common.Decimal is what `std::to_string` and
--   `std::from_chars` do there for an `int64_t`.
-- - Common.Framing models src/common/framing.cc and crc32.cc: `encode_record`, `decode_records`.
--   The checksum of zlib is a parameter of which nothing is assumed.
-- - Common.Ids models the handles as text of src/common/ids.cc.
-- - Master.ChunkTable models src/master/chunk_table.cc; a pointer from `Find` is a read by
--   `find` and a write by `put`.
-- - Master.Namespace models src/master/namespace.cc over a map from paths to `FileMeta`.
-- - Master.State models src/master/master_state.cc: `Apply` of a log record is `apply`, with one
--   `apply_` function for each kind. Master.State.Saved has the checkpoints and the recount.
-- - Master.Registry models src/master/chunkserver_registry.cc, and Master.LeaseManager
--   src/master/lease_manager.cc, with the lease tests in LeaseManager itself, `PrepareLocked`
--   and `GrantSerialized` in Grants and `Revoke` in Revokes. `GrantSerialized` is
--   `grant_serialized`: each of its eight rounds is a `Round`, which holds the answers of the
--   chunkservers, the readings of the clock and what other threads do to the table between the
--   critical sections, all of them arbitrary.
-- - Master.LockTable models src/master/lock_table.cc: `LockOne` is `lock_first` up to the first wait
--   and `lock_again` after each. LockTable.System has the threads, as the locks that are held and
--   the requests that wait.
-- - Master.Handlers models the requests of src/master/master.cc. A critical section of a handler is
--   a function on `Master`, the state, the servers and the list of what was given to
--   `OpLog::Append`; what other threads do between two sections is a parameter. The requests on the
--   namespace are in Handlers itself, those on chunks in Chunks, `ChooseServers` in Placement,
--   `FindLeaseHolder` in Holders, `HeartBeat` in Beats, `SweepDead` and `GcPass` in Gc. Meanwhile
--   has the sections that may run while `Revoke` calls a primary.
-- - Common.Config has the settings of src/common/config.h that are read.
-- - Chunkserver.LeaseTable models src/chunkserver/lease_table.cc. The safety of the leases
--   (Master.LeaseManager.Safety) relates it to the master's lease manager.
-- - Chunkserver.ChunkStore models src/chunkserver/chunk_store.cc: the operations on the store are in
--   ChunkStore itself, those on one chunk, `OpenEntry` and `RecomputeBlocks` in Entries, the calls on
--   files in Files. A file is its bytes; which calls fail, and where a write stops, is the argument
--   `Faults`. Common.ResultCode has the codes of the responses.
-- - Chunkserver.Requests models the requests of src/chunkserver/chunkserver.cc, each as one step of the
--   server: `Write` is `write_request`, `RecordAppend` is `record_append`, and so on in snake_case.
--   What the secondaries answer to `ForwardMutation` is the parameter `forward`. `SendHeartbeat` is
--   Requests.Beats.
-- - Chunkserver.DataBuffer models src/chunkserver/data_buffer.cc: a list iterator is a node's
--   number.
--
-- Times are integers that count ticks of the clock; their overflow is not modelled. An operation
-- that reads the clock takes the reading as an argument. Locks appear as the atomicity of each
-- operation. A `uint32_t` count and a `uint64_t` handle wrap around where the code adds to them.
-- A loop over the rest of a text has fuel: the components of a path, the frames of a log and the
-- digits of a number each take at least one byte or digit a round, so that the length plus one
-- is enough. The loop of `DataBuffer::Put` takes one entry off a round and has as many rounds as
-- there are entries. The loop of `Master::Remove` over hidden names has one round more than there
-- are files.
--
-- Not modelled: the queue of `BeginHandle` and the regrants, the log's files and
-- threads, the pushing of data to the chunkservers, the distances and the client. gRPC, the
-- processes, logging and the parsing of flags are left out.
pub mod Base
pub mod Common
pub mod Master
pub mod Chunkserver
mod Tests
