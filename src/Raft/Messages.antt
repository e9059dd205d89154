-- ===== src/Raft/Messages.antt =====
-- The messages between nodes (raft/raft_message.h).
use cqupt_block_storage.Base.{ℕ, List, Bool, ◌==◌, ◌&&◌}
use cqupt_block_storage.Raft.Types.{LogEntry, SnapshotMetadata}

pub data VoteRejectReason : Type 0 where
  none stale_term log_outdated already_voted learner : VoteRejectReason

pub record RequestVoteRequest : Type 0 where
  pub term : ℕ
  pub candidate_id : ℕ
  pub last_log_index : ℕ
  pub last_log_term : ℕ

pub record RequestVoteResponse : Type 0 where
  pub term : ℕ
  pub vote_granted : Bool
  pub reject_reason : VoteRejectReason

pub record AppendEntriesRequest : Type 0 where
  pub term : ℕ
  pub leader_id : ℕ
  pub prev_log_index : ℕ
  pub prev_log_term : ℕ
  pub entries : List LogEntry
  pub leader_commit : ℕ

pub record AppendEntriesResponse : Type 0 where
  pub term : ℕ
  pub success : Bool
  pub match_index : ℕ
  pub conflict_index : ℕ
  pub conflict_term : ℕ

pub record InstallSnapshotRequest : Type 0 where
  pub term : ℕ
  pub leader_id : ℕ
  pub metadata : SnapshotMetadata
  pub payload : List ℕ

pub record InstallSnapshotResponse : Type 0 where
  pub term : ℕ
  pub success : Bool
  pub last_included_index : ℕ

pub data RaftMessageType : Type 0 where
  request_vote_request request_vote_response : RaftMessageType
  append_entries_request append_entries_response : RaftMessageType
  install_snapshot_request install_snapshot_response : RaftMessageType

-- the `std::variant`
pub data RaftMessagePayload : Type 0 where
  vote_request : RequestVoteRequest → RaftMessagePayload
  vote_response : RequestVoteResponse → RaftMessagePayload
  append_request : AppendEntriesRequest → RaftMessagePayload
  append_response : AppendEntriesResponse → RaftMessagePayload
  snapshot_request : InstallSnapshotRequest → RaftMessagePayload
  snapshot_response : InstallSnapshotResponse → RaftMessagePayload

pub record RaftMessage : Type 0 where
  pub type : RaftMessageType
  pub source_node_id : ℕ
  pub target_node_id : ℕ
  pub payload : RaftMessagePayload

-- the value of the enumerator
abbrev pub type_value : RaftMessageType → ℕ
type_value RaftMessageType.request_vote_request = 0
type_value RaftMessageType.request_vote_response = 1
type_value RaftMessageType.append_entries_request = 2
type_value RaftMessageType.append_entries_response = 3
type_value RaftMessageType.install_snapshot_request = 4
type_value RaftMessageType.install_snapshot_response = 5

-- the test by which `StageMessage` finds the messages that a new one replaces
abbrev pub same_message : RaftMessage → RaftMessage → Bool
same_message a b = type_value a.type == type_value b.type && a.target_node_id == b.target_node_id
