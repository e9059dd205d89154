-- ===== src/Lib.antt =====
-- Verification of the distributed storage system: the consensus core of `cross-platform-raft/src/raft`
-- (the replicated log, the membership of a cluster and the protocol state machine), the metadata state
-- machine that committed entries drive, and the stores and tasks that it manages.
--
-- The program. `RaftCore` (cross-platform-raft/src/raft/raft_core.cpp) is a deterministic state
-- machine without threads or input and output. The runtime drives it with ticks, messages of peers,
-- proposals and confirmations of the storage, and takes messages and entries out of it. It owns one
-- `RaftLog` (raft_log.cpp), the only holder of entries and of the stable, commit, applied and snapshot
-- indices, and one `MembershipState` (raft_membership.cpp), which committed entries change.
--
-- `MetadataStateMachine` (metadata/metadata_state_machine.cpp) is what committed entries are applied to. An
-- entry's payload is a `MetadataCommand` (metadata/metadata_command.cpp), which sets a record or carries a
-- store command for the `StoreRegistry` (store/store_registry.cpp) or the `TaskManager`
-- (store/task_manager.cpp) of the machine.
--
-- The files.
-- - Base: numbers, lists and tests on them, sorting by a Boolean order (Base.Sorting), a `std::map` as a
--   sorted list of pairs (Base.Maps), and the integers (Base.Int). Base.Words is the arithmetic of `uint64_t`, with its
--   wrap-around: an increment is `% 2 ^ 64`.
-- - Common.Status: cross-platform-raft/src/common/status.h. A `Status` is `ok` or `err` of its code; the
--   value that a call writes through its output pointer comes with `ok`. The code `undefined` is none of
--   the program's: it marks a read outside a vector. Common.Action is a method that changes an object:
--   from the state to a result and the next state, so that what a failing call has done is kept.
-- - Raft.Types and Raft.Messages: common/types.h, raft_types.h and raft_message.h.
-- - Raft.Log: raft_log.cpp, one function per method under the method's name (`truncate_suffix` is
--   `TruncateSuffix`). Below it Invariant, Reads (the log as a function from indexes to entries), Updates,
--   Compaction, Conflict and History (sequences of calls).
-- - Raft.Membership: raft_membership.cpp; Changes has the builders of change entries and Codec the
--   binary form of an entry.
-- - Raft.MemoryStorage: memory_raft_storage.cpp, with Contiguous (indexes that follow each other),
--   Writes (what no write undoes) and History (sequences of calls).
-- - Raft.Core: raft_core.h and raft_core.cpp. State has the fields; Setup is `Initialize`; Progress the map
--   of peers; Outbox `StageMessage` and `ReclassifyBlockedMessages`; Election ticks, terms and votes;
--   Commit proposals and the commit index; Replication `AppendEntries`; Reconfiguration membership
--   changes; Snapshot the boundary (`move_snapshot_boundary` is `RaftCore::UpdateSnapshotBoundary`) and
--   `InstallSnapshot`; Output what the runtime reads and confirms.
-- - Raft.Core.Safety: what no method but `Initialize` may undo, method by method in Methods, Elections, Appends and
--   Others, over whole histories in Runs, for votes in Votes, the commit index in Commits,
--   what the entries of a request leave in
--   the log in Merged and Entries, quorums in Quorums, the message queues in Searches and Queues, and the wait of a vote for the storage in
--   Persistence.
-- - Common.BoundedQueue: common/bounded_queue.h; a pop that has to wait answers `none`.
-- - Store.Types: store/store_types.h and store/task_types.h. Store.Address: the key of an address.
--   Store.Registry: store_registry.cpp, with Index (the two maps agree) and Lookup. Store.Placement:
--   placement_policy.cpp, with Selection. Store.Tasks: task_manager.cpp, with Restore
--   (`RestorePersistent`), Lifecycle, Waiting and History (what becomes of a task), Fifo, Progress,
--   Poll and Repeats.
--   Store.Dispatcher: simple_task_dispatcher.cpp.
-- - Metadata.Codec: the byte fields of metadata_command.cpp, which metadata_state_machine.cpp copies.
--   Metadata.Command and Metadata.Business: the commands, store commands and results of
--   metadata_command.cpp, each with Decoding and its round trip
--   (Fields and RoundTrip for results, CommandFields and CommandRoundTrip for store commands). Metadata.StateMachine: `Apply` and the reads of
--   metadata_state_machine.cpp, with Apply, History and Effect. Metadata.Snapshot: `CreateSnapshot`, with Restore
--   (`RestoreSnapshot`) and Refusal.
-- - Tests: the theorems at concrete inputs.
--
-- State and bounds. An object is a record of its fields, a `std::vector` a list, `peer_progress_` a list
-- of pairs. Node ids, terms and indexes are numbers; where a theorem needs one to be a 64-bit word it
-- says so. A loop over a vector is recursion on the list. A loop over indexes runs on the number of rounds
-- between its bounds, which is enough since each round moves the index by one. The digits of a number
-- are taken on fuel one above the number, which is enough since each digit divides it by ten. An
-- enumeration that a byte is cast to has a constructor `other` for the values that no enumerator names.
-- The number that an uninitialised field holds is an argument, `unset`.
--
-- Not modelled: status messages, null output pointers, exceptions and failed allocation, accessors that
-- return a field, mutexes (a call that holds the lock is one step), and the runtime, storage, metadata
-- service, configuration, transport and server.
pub mod Base
pub mod Common
pub mod Raft
pub mod Store
pub mod Metadata
mod Tests
