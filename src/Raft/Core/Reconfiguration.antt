-- ===== src/Raft/Core/Reconfiguration.antt =====
-- Membership changes: what the leader proposes, and what a committed change does to a node.
use cqupt_block_storage.Base.{
  ℕ, zero, suc, ◌+◌, ◌-◌, List, [], ◌∷◌, ◌++◌, Bool, true, false, not, ◌&&◌, leb, ◌==◌,
  if◌then◌else◌,
}
use cqupt_block_storage.Common.Status
use cqupt_block_storage.Common.Status.{Result, ok, err, ⊤, invalid_argument, busy}
use cqupt_block_storage.Common.Action.{Action, check, modify, refuse_if, ◌>>=◌, ◌>>◌}
use cqupt_block_storage.Raft.Log.{RaftLog, last_index, get_entry}
use cqupt_block_storage.Raft.Membership.{MembershipState, MembershipLogEntry, apply_committed}
use cqupt_block_storage.Raft.Membership.Changes.{
  build_add_learner_log_entry, build_promote_learner_log_entry, build_remove_member_log_entry,
  build_finalize_membership_log_entry,
}
use cqupt_block_storage.Raft.Membership.Codec.{
  encode_membership_log_entry, decode_membership_log_entry,
}
use cqupt_block_storage.Raft.Types.{LogEntry, LogEntryType, RaftMember, RaftRole, invalid_node_id}
use cqupt_block_storage.Raft.Core.State.{
  RaftCore, role_eq, require_initialized, contains_node, member_ids, sorted_node_ids,
}
use cqupt_block_storage.Raft.Core.Progress.{
  find_peer_progress, progress_for, sync_local_peer_progress,
}
use cqupt_block_storage.Raft.Core.Commit.{append_entry, majority}
use cqupt_block_storage.Raft.Core.Setup.{push_missing, remove_ids}

-- `GetLearnerState`; `LearnerState` is declared in raft/raft_core.h
pub record LearnerState : Type 0 where
  pub healthy : Bool
  pub caught_up : Bool
  pub requires_snapshot : Bool
  pub match_index : ℕ
  pub next_index : ℕ
  pub leader_commit : ℕ

unfoldable pub get_learner_state : ℕ → RaftCore → Result LearnerState
unfolding find_peer_progress
get_learner_state target c = Status.◌>>◌ (require_initialized c) (
    Status.◌>>=◌ (find_peer_progress target c) λ p.
      if not p.is_learner
      then err invalid_argument
      else let requires_snapshot = leb p.next_index c.log.snapshot_index in
        ok (record {
          healthy = p.is_active;
          caught_up = not requires_snapshot && leb c.log.commit_index p.match_index;
          requires_snapshot = requires_snapshot;
          match_index = p.match_index;
          next_index = p.next_index;
          leader_commit = c.log.commit_index;
        }))

is_membership_change : LogEntryType → Bool
is_membership_change LogEntryType.membership_change = true
is_membership_change _ = false

-- the loop of `HasPendingMembershipChange`, on the rounds left
scan_pending : RaftLog → ℕ → ℕ → Bool
unfolding get_entry is_membership_change
scan_pending l zero index = false
scan_pending l (suc rounds) index =
    let rest = scan_pending l rounds (index + 1) in
    elim (get_entry l index) [
      | err e ↦ rest
      | ok entry ↦ if is_membership_change entry.type then true else rest
    ]

unfoldable pub has_pending_membership_change : RaftCore → Bool
unfolding scan_pending last_index
has_pending_membership_change c =
    scan_pending c.log (last_index c.log - c.log.applied_index) (c.log.applied_index + 1)

active_voters : RaftCore → List ℕ → ℕ
unfolding find_peer_progress
active_voters c [] = 0
active_voters c (id ∷ ids) =
    let rest = active_voters c ids in
    if id == c.node_id then suc rest else elim (find_peer_progress id c) [
      | ok p ↦ if p.is_active then suc rest else rest
      | err e ↦ rest
    ]

unfoldable pub has_committed_voter_quorum : RaftCore → Bool
unfolding active_voters
has_committed_voter_quorum c = leb (majority c.voter_ids) (active_voters c c.voter_ids)

unfoldable pub append_membership_change_proposal : MembershipLogEntry → Action RaftCore ℕ
unfolding encode_membership_log_entry append_entry
append_membership_change_proposal entry = do
  check require_initialized
  payload ← check λ c. encode_membership_log_entry entry
  append_entry LogEntryType.membership_change payload

unfoldable pub add_learner : RaftMember → Action RaftCore ℕ
unfolding has_pending_membership_change build_add_learner_log_entry
    append_membership_change_proposal
add_learner learner = do
  check require_initialized
  refuse_if (λ c. not (role_eq c.role RaftRole.leader)) invalid_argument
  refuse_if has_pending_membership_change busy
  entry ← check λ c. build_add_learner_log_entry c.membership_state learner
  append_membership_change_proposal entry

unfoldable pub promote_learner : ℕ → Action RaftCore ℕ
unfolding has_pending_membership_change has_committed_voter_quorum get_learner_state
    build_promote_learner_log_entry append_membership_change_proposal
promote_learner id = do
  check require_initialized
  refuse_if (λ c. not (role_eq c.role RaftRole.leader)) invalid_argument
  refuse_if (λ c. id == invalid_node_id) invalid_argument
  refuse_if has_pending_membership_change busy
  refuse_if (λ c. not (has_committed_voter_quorum c)) busy
  state ← check (get_learner_state id)
  refuse_if (λ c. state.requires_snapshot) busy
  refuse_if (λ c. not state.healthy) busy
  refuse_if (λ c. not state.caught_up) busy
  entry ← check λ c. build_promote_learner_log_entry c.membership_state id
  append_membership_change_proposal entry

unfoldable pub remove_member : ℕ → Action RaftCore ℕ
unfolding has_pending_membership_change has_committed_voter_quorum build_remove_member_log_entry
    append_membership_change_proposal
remove_member id = do
  check require_initialized
  refuse_if (λ c. not (role_eq c.role RaftRole.leader)) invalid_argument
  refuse_if (λ c. id == invalid_node_id) invalid_argument
  refuse_if has_pending_membership_change busy
  refuse_if (λ c. not (has_committed_voter_quorum c)) busy
  entry ← check λ c. build_remove_member_log_entry c.membership_state id
  append_membership_change_proposal entry

unfoldable pub finalize_membership_change : Action RaftCore ℕ
unfolding has_pending_membership_change build_finalize_membership_log_entry
    append_membership_change_proposal
finalize_membership_change = do
  check require_initialized
  refuse_if (λ c. not (role_eq c.role RaftRole.leader)) invalid_argument
  refuse_if (λ c. not c.membership_state.has_active_transition) invalid_argument
  refuse_if has_pending_membership_change busy
  entry ← check λ c. build_finalize_membership_log_entry c.membership_state
  append_membership_change_proposal entry

-- the ids of the next learners that are in neither list, behind the learners
push_learners : List ℕ → List ℕ → List ℕ → List ℕ
unfolding contains_node
push_learners voters learners [] = learners
push_learners voters learners (n ∷ ns) =
    push_learners voters
      (if not (contains_node learners n) && not (contains_node voters n)
        then learners ++ n ∷ []
        else learners)
      ns

-- `candidate_voters` and `candidate_learners` of `ApplyCommittedMembershipEntry`
candidate_voters : MembershipState → List ℕ
unfolding member_ids push_missing sorted_node_ids
candidate_voters m =
    let voters = member_ids m.voters in
    if m.has_active_transition
    then sorted_node_ids (push_missing voters (member_ids m.next_voters))
    else voters

candidate_learners : MembershipState → List ℕ
unfolding member_ids push_missing remove_ids push_learners sorted_node_ids
candidate_learners m =
    let learners = member_ids m.learners in
    if m.has_active_transition
    then sorted_node_ids (
        push_learners (push_missing (member_ids m.voters) (member_ids m.next_voters))
          (remove_ids (member_ids m.next_voters) learners) (member_ids m.next_learners))
    else learners

-- the role that the node loses when it is no voter any more
abbrev pub retire : RaftCore → RaftCore
retire c = record c {
  role = RaftRole.learner;
  leader_id = invalid_node_id;
  hard_state = record (c.hard_state) { voted_for = invalid_node_id };
  election_elapsed_ticks = 0;
}

-- the assignments once the new membership is known
unfoldable pub adopt_membership : MembershipState → RaftCore → RaftCore
unfolding candidate_voters candidate_learners progress_for sync_local_peer_progress contains_node
adopt_membership m c =
    let voters = candidate_voters m in
    let learners = candidate_learners m in
    let d = sync_local_peer_progress (record c {
      membership_state = m;
      voter_ids = voters;
      learner_ids = learners;
      peer_progress = progress_for c voters learners;
      hard_state = record (c.hard_state) { membership_configuration_id = m.configuration_id };
    }) in
    if not (contains_node voters c.node_id) && not (contains_node learners c.node_id)
    then retire d
    else if contains_node learners c.node_id
    then retire d
    else d

unfoldable pub apply_committed_membership_entry : LogEntry → Action RaftCore ⊤
unfolding is_membership_change decode_membership_log_entry apply_committed adopt_membership
apply_committed_membership_entry entry = do
  check require_initialized
  refuse_if (λ c. not (is_membership_change entry.type)) invalid_argument
  change ← check λ c. decode_membership_log_entry entry.payload
  candidate ← check λ c. apply_committed change c.membership_state
  modify (adopt_membership candidate)
