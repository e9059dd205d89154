-- ===== src/Metadata.antt =====
-- The metadata that the log's entries change: commands and their bytes, and the state machine.
pub mod Codec
pub mod Command
pub mod Business
pub mod StateMachine
pub mod Snapshot
