-- ===== src/Raft/Core/Safety/Methods.antt =====
-- Each method is safe: the rules of Safety, method by method.
use cqupt_block_storage.Base.{ℕ, zero, suc, ◌-◌, refl, Bool, arith, List, [], ◌∷◌}
use cqupt_block_storage.Common.Status.{ok}
use cqupt_block_storage.Common.Action.{check, modify}
use cqupt_block_storage.Raft.Types.{LogEntryType}
use cqupt_block_storage.Raft.Log.{last_index, append, advance_commit_to}
use cqupt_block_storage.Raft.Log.History.{Call, call-Keeps}
use cqupt_block_storage.Raft.Messages.{RaftMessage}
use cqupt_block_storage.Raft.Core.State.{
  RaftCore, on_log, update_current_term, become_follower_for_remote,
}
use cqupt_block_storage.Raft.Core.Outbox.{stage_message}
use cqupt_block_storage.Raft.Core.Progress.{
  reset_peer_progress, sync_local_peer_progress, update_peer_progress_for_membership,
}
use cqupt_block_storage.Raft.Core.Commit.{
  copy_commit, new_entry, record_local, commit_at, scan_commit, try_advance_commit_index,
  append_entry, propose,
}
use cqupt_block_storage.Raft.Core.Safety.{
  Leads, Leads-frame, Leads-vote, Leads-refl, IsSafe, IsSafe-bind, IsSafe-then, IsSafe-check,
  IsSafe-pure, IsSafe-modify, IsSafe-on_log, safe_steps,
}

-- A message touches the queues only.
pub stage_message-Leads :
    (m : RaftMessage) (b : Bool) (i : ℕ) (c : RaftCore) → Leads c (stage_message m b i c)
unfolding stage_message
stage_message-Leads m b i c =
    Leads-frame c _ (ground arith) (ground arith) (ground arith) (ground arith) (ground arith)

commit_at-IsSafe : (i : ℕ) → IsSafe (commit_at i)
unfolding commit_at
commit_at-IsSafe i =
    IsSafe-then (on_log (advance_commit_to i)) (modify copy_commit)
      (IsSafe-on_log (advance_commit_to i) λ l v. call-Keeps (Call.advance_commit_to i) l v tt)
      (IsSafe-modify copy_commit λ c. Leads-frame c (copy_commit c) refl refl refl refl refl)

scan_commit-Leads : (n i : ℕ) (c : RaftCore) → Leads c (scan_commit n i c).1
unfolding scan_commit IsSafe
scan_commit-Leads zero i c = Leads-refl c
scan_commit-Leads (suc n) i c =
    ground (arith, Leads-refl c, scan_commit-Leads n (i - 1) c, commit_at-IsSafe i c)

pub try_advance_commit_index-IsSafe : IsSafe try_advance_commit_index
unfolding try_advance_commit_index IsSafe
try_advance_commit_index-IsSafe c =
    scan_commit-Leads (last_index c.log - c.log.commit_index) (last_index c.log) c

pub append_entry-IsSafe : (t : LogEntryType) (p : List ℕ) → IsSafe (append_entry t p)
unfolding append_entry
append_entry-IsSafe t p = IsSafe-bind (check λ c. ok (new_entry t p c)) _ (IsSafe-check _) λ e.
    IsSafe-then (on_log (append (e ∷ []))) _
      (IsSafe-on_log (append (e ∷ [])) λ l v. call-Keeps (Call.append (e ∷ [])) l v tt)
      (IsSafe-then (modify (record_local e)) _
        (IsSafe-modify (record_local e)
          λ c. Leads-frame c (record_local e c) refl refl refl refl refl)
        (IsSafe-then _ _ try_advance_commit_index-IsSafe (IsSafe-pure e.index)))

pub propose-IsSafe : (p : List ℕ) → IsSafe (propose p)
unfolding propose
propose-IsSafe p = search (safe_steps, append_entry-IsSafe)

pub update_current_term-IsSafe : (t : ℕ) → IsSafe (update_current_term t)
unfolding update_current_term IsSafe
update_current_term-IsSafe t c =
    Leads-vote c _ (ground arith) (ground arith) (ground arith) (ground arith) (ground arith)

pub become_follower_for_remote-IsSafe : (t l : ℕ) → IsSafe (become_follower_for_remote t l)
unfolding become_follower_for_remote IsSafe
become_follower_for_remote-IsSafe t l c =
    Leads-vote c _ (ground arith) (ground arith) (ground arith) (ground arith) (ground arith)

pub reset_peer_progress-Leads : (c : RaftCore) → Leads c (reset_peer_progress c)
unfolding reset_peer_progress sync_local_peer_progress
reset_peer_progress-Leads c = Leads-frame c _ refl refl refl refl refl

pub update_peer_progress_for_membership-Leads :
    (c : RaftCore) → Leads c (update_peer_progress_for_membership c)
unfolding update_peer_progress_for_membership sync_local_peer_progress
update_peer_progress_for_membership-Leads c =
    Leads-frame c _ (ground arith) (ground arith) (ground arith) (ground arith) (ground arith)
