-- ===== src/Raft/Core/Snapshot.antt =====
-- Snapshots and their boundary, and `ConfirmApplied`.
use cqupt_block_storage.Base.{ℕ, [], true, false, not, ◌&&◌, ltb, ◌==◌, if◌then◌else◌, inc_u64, max}
use cqupt_block_storage.Common.Status.{ok, err, ⊤, invalid_argument, not_found}
use cqupt_block_storage.Common.Action.{Action, pure, check, modify, refuse_if, ◌>>=◌, ◌>>◌}
use cqupt_block_storage.Raft.Log.{advance_applied_to, update_snapshot_boundary}
use cqupt_block_storage.Raft.Membership.{MembershipState, has_no_members, to_view, from_view}
use cqupt_block_storage.Raft.Messages.{
  InstallSnapshotRequest, InstallSnapshotResponse, RaftMessageType, RaftMessagePayload,
}
use cqupt_block_storage.Raft.Types.{
  MembershipView, SnapshotMetadata, RaftRole, invalid_node_id, invalid_log_index,
}
use cqupt_block_storage.Raft.Core.State.{
  RaftCore, current_term, role_eq, require_initialized, on_log, contains_node,
  become_follower_for_remote, has_dirty_hard_state,
}
use cqupt_block_storage.Raft.Core.Progress.{
  find_peer_progress, update_peer, update_peer_progress_for_membership,
}
use cqupt_block_storage.Raft.Core.Outbox.{stage_message}
use cqupt_block_storage.Raft.Core.Setup.{sync_membership_vectors_from_state}
use cqupt_block_storage.Raft.Core.Reconfiguration.{retire}

unfoldable pub confirm_applied : ℕ → Action RaftCore ⊤
unfolding advance_applied_to
confirm_applied index = do
  check require_initialized
  refuse_if (λ c. index == invalid_log_index) invalid_argument
  refuse_if (λ c. not (index == inc_u64 c.log.applied_index)) invalid_argument
  refuse_if (λ c. ltb c.log.commit_index index) invalid_argument
  on_log (advance_applied_to index)

-- `MembershipView()`
abbrev empty_view : MembershipView
empty_view = record {
  voters = [];
  learners = [];
  has_active_transition = false;
  configuration_id = 0;
  next_voters = [];
  next_learners = [];
}

unfoldable pub build_install_snapshot_for_peer : ℕ → Action RaftCore InstallSnapshotRequest
unfolding find_peer_progress has_no_members stage_message
build_install_snapshot_for_peer target = do
  check require_initialized
  refuse_if (λ c. not (role_eq c.role RaftRole.leader)) invalid_argument
  refuse_if (λ c. target == c.node_id) invalid_argument
  refuse_if (λ c. c.log.snapshot_index == invalid_log_index) not_found
  progress ← check (find_peer_progress target)
  refuse_if (λ c. ltb c.log.snapshot_index progress.next_index) invalid_argument
  request ← check λ c. ok (record {
    term = current_term c;
    leader_id = c.node_id;
    metadata = record {
      last_included_index = c.log.snapshot_index;
      last_included_term = c.log.snapshot_term;
      membership =
          if has_no_members c.membership_state then empty_view else to_view c.membership_state;
    };
    payload = [];
  })
  modify λ c.
      stage_message
        (record {
          type = RaftMessageType.install_snapshot_request;
          source_node_id = c.node_id;
          target_node_id = target;
          payload = RaftMessagePayload.snapshot_request request;
        })
        (has_dirty_hard_state c) invalid_log_index c
  pure request

-- what a peer that has installed the snapshot is known to hold
unfoldable pub record_snapshot : ℕ → InstallSnapshotResponse → RaftCore → RaftCore
record_snapshot source r c =
    update_peer source
      (λ p.
        let m =
          (if ltb p.match_index r.last_included_index
            then r.last_included_index
            else p.match_index) in
        record p { is_active = true; match_index = m; next_index = max p.next_index (inc_u64 m) })
      c

unfoldable pub handle_install_snapshot_response : ℕ → InstallSnapshotResponse → Action RaftCore ⊤
unfolding become_follower_for_remote find_peer_progress record_snapshot
handle_install_snapshot_response source r = do
  check require_initialized
  refuse_if (λ c. source == invalid_node_id) invalid_argument
  λ c.
      if ltb r.term (current_term c)
      then (ok tt, c)
      else if ltb (current_term c) r.term
      then become_follower_for_remote r.term invalid_node_id c
      else if not (role_eq c.role RaftRole.leader)
      then (ok tt, c)
      else if not r.success
      then (err invalid_argument, c)
      else if ltb c.log.snapshot_index r.last_included_index
      then (err invalid_argument, c)
      else elim (find_peer_progress source c) [
        | err e ↦ (err e, c)
        | ok found ↦ (ok tt, record_snapshot source r c)
      ]

unfoldable pub load_membership : MembershipState → RaftCore → RaftCore
unfolding sync_membership_vectors_from_state
load_membership m c = sync_membership_vectors_from_state (record c { membership_state = m })

abbrev pub save_configuration : RaftCore → RaftCore
save_configuration c = record c {
  hard_state = record (c.hard_state) {
    membership_configuration_id = c.membership_state.configuration_id;
  };
}

-- the membership that comes with a snapshot
unfoldable pub adopt_snapshot_membership : MembershipView → Action RaftCore ⊤
unfolding from_view load_membership
adopt_snapshot_membership view = if view.configuration_id == 0 then pure tt else do
  candidate ← check λ c. from_view view
  modify (load_membership candidate)
  modify save_configuration

-- the node is in neither list of the new membership
unfoldable pub retire_if_removed : RaftCore → RaftCore
unfolding contains_node
retire_if_removed c =
    if not (contains_node c.voter_ids c.node_id) && not (contains_node c.learner_ids c.node_id)
    then retire c
    else c

unfoldable pub move_snapshot_boundary : SnapshotMetadata → Action RaftCore ⊤
unfolding update_snapshot_boundary adopt_snapshot_membership update_peer_progress_for_membership
    retire_if_removed
move_snapshot_boundary metadata = do
  check require_initialized
  on_log (update_snapshot_boundary metadata.last_included_index metadata.last_included_term)
  adopt_snapshot_membership metadata.membership
  modify update_peer_progress_for_membership
  modify retire_if_removed
