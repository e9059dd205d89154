-- ===== src/Store.antt =====
-- `cross-platform-raft/src/store`: the storage nodes, where replicas go, and the tasks they carry out.
pub mod Types
pub mod Address
pub mod Registry
pub mod Placement
pub mod Tasks
pub mod Dispatcher
