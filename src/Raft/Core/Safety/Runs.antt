-- ===== src/Raft/Core/Safety/Runs.antt =====
-- Whole histories of one node: any sequence of calls of the methods of `RaftCore` that change it,
-- whatever each returns, but of `Initialize`, which starts a node anew.
use cqupt_block_storage.Base.{ℕ, suc, ◌<◌, List, [], ◌∷◌, u64_mod}
use cqupt_block_storage.Common.Status.{⊤}
use cqupt_block_storage.Raft.Types.{LogEntry, RaftMember, SnapshotMetadata}
use cqupt_block_storage.Raft.Log.Invariant.{IsValid}
use cqupt_block_storage.Raft.Messages.{
  RequestVoteRequest, RequestVoteResponse, AppendEntriesRequest, AppendEntriesResponse,
  InstallSnapshotResponse,
}
use cqupt_block_storage.Raft.Core.State.{RaftCore, current_term}
use cqupt_block_storage.Raft.Core.Commit
use cqupt_block_storage.Raft.Core.Election
use cqupt_block_storage.Raft.Core.Replication
use cqupt_block_storage.Raft.Core.Reconfiguration
use cqupt_block_storage.Raft.Core.Snapshot
use cqupt_block_storage.Raft.Core.Output
use cqupt_block_storage.Raft.Core.Output.{PersistenceConfirmation}
use cqupt_block_storage.Raft.Core.Safety.{
  Follows, Leads, Leads-refl, Leads-Follows, Leads-trans, IsSafe,
}
use cqupt_block_storage.Raft.Core.Safety.Methods.{propose-IsSafe}
use cqupt_block_storage.Raft.Core.Safety.Elections.{
  start_election-Leads, tick-Leads, update_election_timeout-IsSafe, become_follower-IsSafe,
  become_leader-IsSafe, handle_request_vote-IsSafe, handle_request_vote_response-IsSafe,
}
use cqupt_block_storage.Raft.Core.Safety.Appends.{
  FrontIsWord, build_append_entries_for_peer-IsSafe, handle_append_entries-IsSafe,
  handle_append_entries_response-IsSafe,
}
use cqupt_block_storage.Raft.Core.Safety.Others.{
  add_learner-IsSafe, promote_learner-IsSafe, remove_member-IsSafe,
  finalize_membership_change-IsSafe, apply_committed_membership_entry-IsSafe,
  confirm_applied-IsSafe, build_install_snapshot_for_peer-IsSafe,
  handle_install_snapshot_response-IsSafe, move_snapshot_boundary-IsSafe,
  confirm_persistence-IsSafe,
}

-- One call of a method, with its arguments.
pub data Event : Type 0 where
  tick start_election become_leader finalize_membership_change : Event
  update_election_timeout : ℕ → Event
  become_follower : (term leader_id : ℕ) → Event
  propose : List ℕ → Event
  handle_request_vote : RequestVoteRequest → Event
  handle_request_vote_response : ℕ → RequestVoteResponse → Event
  build_append_entries_for_peer build_install_snapshot_for_peer : ℕ → Event
  handle_append_entries : AppendEntriesRequest → Event
  handle_append_entries_response : ℕ → AppendEntriesResponse → Event
  handle_install_snapshot_response : ℕ → InstallSnapshotResponse → Event
  add_learner : RaftMember → Event
  promote_learner remove_member confirm_applied : ℕ → Event
  apply_committed_membership_entry : LogEntry → Event
  update_snapshot_boundary : SnapshotMetadata → Event
  confirm_persistence : PersistenceConfirmation → Event

-- The state after a call.
unfoldable pub after : Event → RaftCore → RaftCore
after Event.tick c = (Election.tick c).1
after Event.start_election c = (Election.start_election c).1
after Event.become_leader c = (Election.become_leader c).1
after Event.finalize_membership_change c = (Reconfiguration.finalize_membership_change c).1
after (Event.update_election_timeout n) c = (Election.update_election_timeout n c).1
after (Event.become_follower t l) c = (Election.become_follower t l c).1
after (Event.propose p) c = (Commit.propose p c).1
after (Event.handle_request_vote q) c = (Election.handle_request_vote q c).1
after (Event.handle_request_vote_response s r) c = (Election.handle_request_vote_response s r c).1
after (Event.build_append_entries_for_peer n) c = (Replication.build_append_entries_for_peer n c).1
after (Event.build_install_snapshot_for_peer n) c = (Snapshot.build_install_snapshot_for_peer n c).1
after (Event.handle_append_entries q) c = (Replication.handle_append_entries q c).1
after (Event.handle_append_entries_response s r) c =
    (Replication.handle_append_entries_response s r c).1
after (Event.handle_install_snapshot_response s r) c =
    (Snapshot.handle_install_snapshot_response s r c).1
after (Event.add_learner m) c = (Reconfiguration.add_learner m c).1
after (Event.promote_learner n) c = (Reconfiguration.promote_learner n c).1
after (Event.remove_member n) c = (Reconfiguration.remove_member n c).1
after (Event.confirm_applied n) c = (Snapshot.confirm_applied n c).1
after (Event.apply_committed_membership_entry e) c =
    (Reconfiguration.apply_committed_membership_entry e c).1
after (Event.update_snapshot_boundary m) c = (Snapshot.move_snapshot_boundary m c).1
after (Event.confirm_persistence n) c = (Output.confirm_persistence n c).1

-- The numbers that a call increments or reads are 64-bit words: the term after the current one,
-- where an election may start, and the index of the first entry of a request.
abbrev pub Fits : Event → RaftCore → Type 0
Fits Event.tick c = suc (current_term c) < u64_mod
Fits Event.start_election c = suc (current_term c) < u64_mod
Fits (Event.handle_append_entries q) c = FrontIsWord q.entries
Fits _ c = ⊤

unfoldable pub history : List Event → RaftCore → RaftCore
history [] c = c
history (e ∷ es) c = history es (after e c)

-- Every call fits the state that it is made in.
abbrev pub AllFit : List Event → RaftCore → Type 0
AllFit [] c = ⊤
AllFit (e ∷ es) c = Fits e c × AllFit es (after e c)

after-Leads : (e : Event) (c : RaftCore) → Fits e c → Leads c (after e c)
unfolding after IsSafe
after-Leads Event.tick c h = tick-Leads c h
after-Leads Event.start_election c h = start_election-Leads c h
after-Leads Event.become_leader c h = become_leader-IsSafe c
after-Leads Event.finalize_membership_change c h = finalize_membership_change-IsSafe c
after-Leads (Event.update_election_timeout n) c h = update_election_timeout-IsSafe n c
after-Leads (Event.become_follower t l) c h = become_follower-IsSafe t l c
after-Leads (Event.propose p) c h = propose-IsSafe p c
after-Leads (Event.handle_request_vote q) c h = handle_request_vote-IsSafe q c
after-Leads (Event.handle_request_vote_response s r) c h = handle_request_vote_response-IsSafe s r c
after-Leads (Event.build_append_entries_for_peer n) c h = build_append_entries_for_peer-IsSafe n c
after-Leads (Event.build_install_snapshot_for_peer n) c h =
    build_install_snapshot_for_peer-IsSafe n c
after-Leads (Event.handle_append_entries q) c h = handle_append_entries-IsSafe q h c
after-Leads (Event.handle_append_entries_response s r) c h =
    handle_append_entries_response-IsSafe s r c
after-Leads (Event.handle_install_snapshot_response s r) c h =
    handle_install_snapshot_response-IsSafe s r c
after-Leads (Event.add_learner m) c h = add_learner-IsSafe m c
after-Leads (Event.promote_learner n) c h = promote_learner-IsSafe n c
after-Leads (Event.remove_member n) c h = remove_member-IsSafe n c
after-Leads (Event.confirm_applied n) c h = confirm_applied-IsSafe n c
after-Leads (Event.apply_committed_membership_entry e) c h =
    apply_committed_membership_entry-IsSafe e c
after-Leads (Event.update_snapshot_boundary m) c h = move_snapshot_boundary-IsSafe m c
after-Leads (Event.confirm_persistence n) c h = confirm_persistence-IsSafe n c

history-Leads : (es : List Event) (c : RaftCore) → AllFit es c → Leads c (history es c)
unfolding history
history-Leads [] c h = Leads-refl c
history-Leads (e ∷ es) c (h, hs) =
    Leads-trans c (after e c) _ (after-Leads e c h) (history-Leads es (after e c) hs)

-- From a core whose log satisfies the invariant, after any sequence of calls of the methods of
-- `RaftCore` that change it, other than `Initialize`, whatever each returns, where the next term
-- at a tick or an election start and the first index of a request are 64-bit words: the log
-- satisfies the invariant, its commit, applied and snapshot indices have not fallen, and each
-- entry that was committed and is not compacted is the entry it was; the node id is the same and
-- the term has not fallen; and if the term is the same, a vote was cast and the node is no learner
-- at the end, the vote is the same.
pub history-Follows :
    (es : List Event) (c : RaftCore) → IsValid c.log → AllFit es c → Follows c (history es c)
history-Follows es c v h = Leads-Follows c _ v (history-Leads es c h)
