-- ===== src/Raft/Core.antt =====
-- `class RaftCore` (raft/raft_core.h, raft/raft_core.cpp): the state, and its methods by theme.
pub mod State
pub mod Progress
pub mod Outbox
pub mod Setup
pub mod Election
pub mod Commit
pub mod Replication
pub mod Reconfiguration
pub mod Snapshot
pub mod Output
pub mod Safety
