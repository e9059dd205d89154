-- ===== src/Raft/Core/Safety/Others.antt =====
-- The methods of Reconfiguration, Snapshot and Output are safe.
use cqupt_block_storage.Base.{ℕ, refl, Bool, true, false, arith, ltb, ◌==◌}
use cqupt_block_storage.Raft.Types.{LogEntry, RaftMember, SnapshotMetadata, MembershipView}
use cqupt_block_storage.Raft.Membership.{MembershipState, MembershipLogEntry}
use cqupt_block_storage.Raft.Messages.{InstallSnapshotResponse}
use cqupt_block_storage.Raft.Log.{
  RaftLog, advance_applied_to, advance_stable_to, update_snapshot_boundary,
}
use cqupt_block_storage.Raft.Log.Invariant.{IsValid}
use cqupt_block_storage.Raft.Log.History.{Call, Keeps, call-Keeps}
use cqupt_block_storage.Raft.Core.State.{RaftCore}
use cqupt_block_storage.Raft.Core.Outbox.{reclassify_blocked_messages}
use cqupt_block_storage.Raft.Core.Setup.{sync_membership_vectors_from_state}
use cqupt_block_storage.Raft.Core.Reconfiguration.{
  append_membership_change_proposal, add_learner, promote_learner, remove_member,
  finalize_membership_change, adopt_membership, retire, apply_committed_membership_entry,
}
use cqupt_block_storage.Raft.Core.Snapshot.{
  record_snapshot, load_membership, save_configuration, retire_if_removed, confirm_applied,
  build_install_snapshot_for_peer, handle_install_snapshot_response, adopt_snapshot_membership,
  move_snapshot_boundary,
}
use cqupt_block_storage.Raft.Core.Output.{
  confirm_hard_state, confirm_stable, PersistenceConfirmation, confirm_persistence,
}
use cqupt_block_storage.Raft.Core.Safety.{
  Leads, Leads-frame, Leads-vote, Leads-refl, IsSafe, IsSafe-pure, IsSafe-if, IsSafe-either,
  IsSafe-on_log, safe_steps,
}
use cqupt_block_storage.Raft.Core.Safety.Methods.{
  stage_message-Leads, become_follower_for_remote-IsSafe, append_entry-IsSafe,
  update_peer_progress_for_membership-Leads,
}

append_membership_change_proposal-IsSafe :
    (e : MembershipLogEntry) → IsSafe (append_membership_change_proposal e)
unfolding append_membership_change_proposal
append_membership_change_proposal-IsSafe e = search (safe_steps, append_entry-IsSafe)

pub add_learner-IsSafe : (m : RaftMember) → IsSafe (add_learner m)
unfolding add_learner
add_learner-IsSafe m = search (safe_steps, append_membership_change_proposal-IsSafe)

pub promote_learner-IsSafe : (n : ℕ) → IsSafe (promote_learner n)
unfolding promote_learner
promote_learner-IsSafe n =
    search (safe_steps, append_membership_change_proposal-IsSafe) depth 20 fits 4000

pub remove_member-IsSafe : (n : ℕ) → IsSafe (remove_member n)
unfolding remove_member
remove_member-IsSafe n =
    search (safe_steps, append_membership_change_proposal-IsSafe) depth 20 fits 4000

pub finalize_membership_change-IsSafe : IsSafe finalize_membership_change
unfolding finalize_membership_change
finalize_membership_change-IsSafe =
    search (safe_steps, append_membership_change_proposal-IsSafe) depth 20 fits 4000

retire-Leads : (c : RaftCore) → Leads c (retire c)
retire-Leads c = Leads-vote c _ refl refl (omega arith) (λ _. refl) (λ _ _ free. absurd (free refl))

adopt_membership-Leads : (m : MembershipState) (c : RaftCore) → Leads c (adopt_membership m c)
unfolding adopt_membership
adopt_membership-Leads m c =
    Leads-vote c _ (ground arith) (ground arith) (ground arith) (ground arith) (ground arith)

pub apply_committed_membership_entry-IsSafe :
    (e : LogEntry) → IsSafe (apply_committed_membership_entry e)
unfolding apply_committed_membership_entry IsSafe
apply_committed_membership_entry-IsSafe e = search (safe_steps, adopt_membership-Leads)

advance-Keeps : (n : ℕ) (l : RaftLog) → IsValid l → Keeps l (advance_applied_to n l).1
advance-Keeps n l v = call-Keeps (Call.advance_applied_to n) l v tt

pub confirm_applied-IsSafe : (n : ℕ) → IsSafe (confirm_applied n)
unfolding confirm_applied
confirm_applied-IsSafe n = search (safe_steps, advance-Keeps) depth 20

pub build_install_snapshot_for_peer-IsSafe : (n : ℕ) → IsSafe (build_install_snapshot_for_peer n)
unfolding build_install_snapshot_for_peer
build_install_snapshot_for_peer-IsSafe n =
    search (safe_steps, stage_message-Leads) depth 20 fits 4000

record_snapshot-Leads :
    (s : ℕ) (r : InstallSnapshotResponse) (c : RaftCore) → Leads c (record_snapshot s r c)
unfolding record_snapshot
record_snapshot-Leads s r c = Leads-frame c _ refl refl refl refl refl

pub handle_install_snapshot_response-IsSafe :
    (s : ℕ) (r : InstallSnapshotResponse) → IsSafe (handle_install_snapshot_response s r)
unfolding handle_install_snapshot_response IsSafe
handle_install_snapshot_response-IsSafe s r c =
    ground (
      arith,
      Leads-refl c,
      record_snapshot-Leads s r c,
      become_follower_for_remote-IsSafe r.term 0 c,
    )

load_membership-Leads : (m : MembershipState) (c : RaftCore) → Leads c (load_membership m c)
unfolding load_membership sync_membership_vectors_from_state
load_membership-Leads m c =
    Leads-frame c _ (ground arith) (ground arith) (ground arith) (ground arith) (ground arith)

save_configuration-Leads : (c : RaftCore) → Leads c (save_configuration c)
save_configuration-Leads c = Leads-frame c _ refl refl refl refl refl

adopt_snapshot_membership-IsSafe : (v : MembershipView) → IsSafe (adopt_snapshot_membership v)
unfolding adopt_snapshot_membership
adopt_snapshot_membership-IsSafe v =
    IsSafe-either (v.configuration_id == 0) _ _ (IsSafe-pure tt)
      (search (safe_steps, load_membership-Leads, save_configuration-Leads) depth 12)

retire_if_removed-Leads : (c : RaftCore) → Leads c (retire_if_removed c)
unfolding retire_if_removed
retire_if_removed-Leads c =
    Leads-vote c _ (ground arith) (ground arith) (ground arith) (ground arith) (ground arith)

boundary-Keeps : (n t : ℕ) (l : RaftLog) → IsValid l → Keeps l (update_snapshot_boundary n t l).1
boundary-Keeps n t l v = call-Keeps (Call.update_snapshot_boundary n t) l v tt

pub move_snapshot_boundary-IsSafe : (m : SnapshotMetadata) → IsSafe (move_snapshot_boundary m)
unfolding move_snapshot_boundary
move_snapshot_boundary-IsSafe m =
    search
      (
        safe_steps, boundary-Keeps, adopt_snapshot_membership-IsSafe, retire_if_removed-Leads,
        update_peer_progress_for_membership-Leads,
      )
      depth 12

reclassify-Leads : (c : RaftCore) → Leads c (reclassify_blocked_messages c)
unfolding reclassify_blocked_messages
reclassify-Leads c = Leads-frame c _ refl refl refl refl refl

confirm_hard_state-Leads : (b : Bool) (c : RaftCore) → Leads c (confirm_hard_state b c)
unfolding confirm_hard_state
confirm_hard_state-Leads true c = Leads-frame c _ refl refl refl refl refl
confirm_hard_state-Leads false c = Leads-refl c

stable-Keeps : (n : ℕ) (l : RaftLog) → IsValid l → Keeps l (advance_stable_to n l).1
stable-Keeps n l v = call-Keeps (Call.advance_stable_to n) l v tt

confirm_stable-IsSafe : (n : ℕ) → IsSafe (confirm_stable n)
unfolding confirm_stable
confirm_stable-IsSafe n =
    IsSafe-if (λ c. ltb c.log.stable_index n) _ _ (IsSafe-on_log _ (stable-Keeps n))
      (IsSafe-pure tt)

pub confirm_persistence-IsSafe : (n : PersistenceConfirmation) → IsSafe (confirm_persistence n)
unfolding confirm_persistence
confirm_persistence-IsSafe n =
    search (safe_steps, confirm_hard_state-Leads, confirm_stable-IsSafe, reclassify-Leads) depth 20
      fits 4000
