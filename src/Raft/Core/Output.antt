-- ===== src/Raft/Core/Output.antt =====
-- What the runtime reads from the core, and `ConfirmPersistence`.
use cqupt_block_storage.Base.{
  ℕ, List, [], ◌∷◌, Bool, false, not, ◌&&◌, ltb, leb, ◌==◌, if◌then◌else◌, inc_u64, map,
}
use cqupt_block_storage.Common.Status
use cqupt_block_storage.Common.Status.{Result, ok, err, ⊤, invalid_argument, undefined}
use cqupt_block_storage.Common.Action.{Action, check, modify, refuse_if, ◌>>◌}
use cqupt_block_storage.Raft.Log.{last_index, get_entries, advance_stable_to, back_index}
use cqupt_block_storage.Raft.Membership.{has_no_members, to_view}
use cqupt_block_storage.Raft.Messages.{RaftMessage}
use cqupt_block_storage.Raft.Types.{
  LogEntry, HardState, MembershipView, RaftMember, PeerProgress, RaftRole, invalid_log_index,
}
use cqupt_block_storage.Raft.Core.State.{
  RaftCore, current_term, require_initialized, has_dirty_hard_state, on_log,
}
use cqupt_block_storage.Raft.Core.Progress.{find_peer_progress}
use cqupt_block_storage.Raft.Core.Outbox.{reclassify_blocked_messages}

pub record ApplyRange : Type 0 where
  pub begin : ℕ
  pub end : ℕ

pub record PersistenceRequirement : Type 0 where
  pub has_hard_state : Bool
  pub hard_state : HardState
  pub first_log_index : ℕ
  pub last_log_index : ℕ

pub record PersistenceConfirmation : Type 0 where
  pub status : Result ⊤
  pub hard_state_persisted : Bool
  pub stable_index : ℕ
  pub max_stable_index : ℕ

pub record RaftOutput : Type 0 where
  pub has_hard_state : Bool
  pub hard_state : HardState
  pub unstable_entries : List LogEntry
  pub persistence : PersistenceRequirement
  pub immediate_messages : List RaftMessage
  pub persisted_messages : List RaftMessage
  pub committed_range : ApplyRange
  pub role : RaftRole
  pub term : ℕ
  pub leader_id : ℕ

pub data ReplicationMode : Type 0 where
  append_entries install_snapshot : ReplicationMode

unfoldable pub get_peer_progress : ℕ → RaftCore → Result PeerProgress
unfolding find_peer_progress
get_peer_progress target c = Status.◌>>◌ (require_initialized c) (find_peer_progress target c)

unfoldable pub get_replication_mode_for_peer : ℕ → RaftCore → Result ReplicationMode
unfolding find_peer_progress
get_replication_mode_for_peer target c = Status.◌>>◌ (require_initialized c) (
    Status.◌>>=◌ (find_peer_progress target c) λ p. ok (
      if leb p.next_index c.log.snapshot_index
      then ReplicationMode.install_snapshot
      else ReplicationMode.append_entries))

-- `RaftMember{node_id, {}}`
bare_member : ℕ → RaftMember
bare_member id = record { node_id = id; address = record { host = []; port = 0 } }

-- where the state has no members the view keeps what the caller's view held as next members; the
-- model takes a fresh view
unfoldable pub get_membership_view : RaftCore → Result MembershipView
unfolding has_no_members bare_member
get_membership_view c = Status.◌>>◌ (require_initialized c) (
    ok (
      if not (has_no_members c.membership_state) then to_view c.membership_state else record {
        voters = map bare_member c.voter_ids;
        learners = map bare_member c.learner_ids;
        has_active_transition = false;
        configuration_id = c.hard_state.membership_configuration_id;
        next_voters = [];
        next_learners = [];
      }))

unfoldable pub get_apply_ready_range : RaftCore → Result ApplyRange
get_apply_ready_range c =
    Status.◌>>◌ (require_initialized c)
      (ok (record { begin = inc_u64 c.log.applied_index; end = c.log.commit_index }))

-- `front().index` of the entries that are not stable
front_index : List LogEntry → Result ℕ
front_index [] = err undefined
front_index (e ∷ es) = ok e.index

unstable_entries : RaftCore → Result (List LogEntry)
unfolding last_index get_entries
unstable_entries c = get_entries c.log (inc_u64 c.log.stable_index) (inc_u64 (last_index c.log))

output_of : RaftCore → List LogEntry → ℕ → ℕ → RaftOutput
output_of c entries first last = record {
  has_hard_state = has_dirty_hard_state c;
  hard_state = c.hard_state;
  unstable_entries = entries;
  persistence = record {
    has_hard_state = has_dirty_hard_state c;
    hard_state = c.hard_state;
    first_log_index = first;
    last_log_index = last;
  };
  immediate_messages = c.immediate_messages;
  persisted_messages = map (λ p. p.message) c.persisted_messages;
  committed_range = record { begin = inc_u64 c.log.applied_index; end = c.log.commit_index };
  role = c.role;
  term = current_term c;
  leader_id = c.leader_id;
}

unfoldable pub get_output : RaftCore → Result RaftOutput
unfolding last_index unstable_entries front_index output_of
get_output c = Status.◌>>◌ (require_initialized c) (
    if ltb c.log.stable_index (last_index c.log)
    then Status.◌>>=◌ (unstable_entries c) (λ entries.
      Status.◌>>=◌ (front_index entries)
        λ first. ok (output_of c entries first (back_index invalid_log_index entries)))
    else ok (output_of c [] invalid_log_index invalid_log_index))

unfoldable pub confirm_hard_state : Bool → RaftCore → RaftCore
confirm_hard_state b c = if b then record c { persisted_hard_state = c.hard_state } else c

unfoldable pub confirm_stable : ℕ → Action RaftCore ⊤
unfolding advance_stable_to
confirm_stable i c = if ltb c.log.stable_index i then on_log (advance_stable_to i) c else (ok tt, c)

unfoldable pub confirm_persistence : PersistenceConfirmation → Action RaftCore ⊤
unfolding last_index confirm_hard_state confirm_stable reclassify_blocked_messages
confirm_persistence n = do
  check require_initialized
  check λ c. n.status
  refuse_if (λ c. ltb n.stable_index c.log.stable_index) invalid_argument
  refuse_if (λ c. ltb (last_index c.log) n.stable_index) invalid_argument
  refuse_if
      (λ c. not (n.max_stable_index == invalid_log_index) && ltb n.max_stable_index n.stable_index)
      invalid_argument
  modify (confirm_hard_state n.hard_state_persisted)
  confirm_stable n.stable_index
  modify reclassify_blocked_messages
