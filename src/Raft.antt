-- ===== src/Raft.antt =====
-- `cross-platform-raft/src/raft`: the replicated log and the protocol core.
pub mod Types
pub mod Log
pub mod Membership
pub mod Messages
pub mod Core
pub mod MemoryStorage
