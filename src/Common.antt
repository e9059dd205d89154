-- ===== src/Common.antt =====
-- The shared vocabulary of `cross-platform-raft/src/common`.
pub mod BoundedQueue
pub mod Status
pub mod Action
