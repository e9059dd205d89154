-- ===== src/Raft/Types.antt =====
-- `common/types.h` and `raft/raft_types.h`. Node ids, terms and log indexes are `uint64_t`: numbers,
-- whose range an invariant states where it matters. A byte is a number, a string its bytes.
use cqupt_block_storage.Base.{ℕ, List, Bool}

pub data RaftRole : Type 0 where
  follower candidate leader learner : RaftRole

pub data LogEntryType : Type 0 where
  no_op command membership_change : LogEntryType

pub record NodeAddress : Type 0 where
  pub host : List ℕ
  pub port : ℕ

pub record RaftMember : Type 0 where
  pub node_id : ℕ
  pub address : NodeAddress

pub record MembershipView : Type 0 where
  pub voters : List RaftMember
  pub learners : List RaftMember
  pub has_active_transition : Bool
  pub configuration_id : ℕ
  pub next_voters : List RaftMember
  pub next_learners : List RaftMember

pub record LogEntry : Type 0 where
  pub index : ℕ
  pub term : ℕ
  pub type : LogEntryType
  pub payload : List ℕ

pub record HardState : Type 0 where
  pub current_term : ℕ
  pub voted_for : ℕ
  pub commit_index : ℕ
  pub membership_configuration_id : ℕ

pub record SnapshotMetadata : Type 0 where
  pub last_included_index : ℕ
  pub last_included_term : ℕ
  pub membership : MembershipView

pub record PeerProgress : Type 0 where
  pub node_id : ℕ
  pub is_learner : Bool
  pub is_active : Bool
  pub match_index : ℕ
  pub next_index : ℕ

-- `RaftLog::ConflictType` and `RaftLog::ConflictResult`
pub data ConflictType : Type 0 where
  none conflict append : ConflictType

pub record ConflictResult : Type 0 where
  pub type : ConflictType
  pub index : ℕ

-- `kInvalidNodeId`, `kInitialTerm` and `kInvalidLogIndex` are all 0.
abbrev pub invalid_node_id : ℕ
invalid_node_id = 0

abbrev pub initial_term : ℕ
initial_term = 0

abbrev pub invalid_log_index : ℕ
invalid_log_index = 0
