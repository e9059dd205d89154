-- ===== src/Raft/Core/Safety/Appends.antt =====
-- The methods of Replication are safe.
use cqupt_block_storage.Base.{
  ℕ, ◌<◌, ◌≡◌, refl, List, [], ◌∷◌, Bool, true, false, arith, u64_mod, min, not, ◌&&◌, ltb, ◌==◌,
  if◌then◌else◌,
}
use cqupt_block_storage.Common.Status.{Result, ok, err, ⊤}
use cqupt_block_storage.Common.Action.{check, modify, pure, ◌>>◌}
use cqupt_block_storage.Raft.Types.{
  LogEntry, HardState, RaftRole, ConflictType, ConflictResult, PeerProgress, invalid_log_index,
  invalid_node_id,
}
use cqupt_block_storage.Raft.Log.{
  RaftLog, last_index, matches, find_conflict, truncate_suffix, append, advance_commit_to,
}
use cqupt_block_storage.Raft.Log.Invariant.{IsValid}
use cqupt_block_storage.Raft.Log.Conflict.{Finds, FoundBy, find_conflict-Finds}
use cqupt_block_storage.Raft.Log.History.{Call, Keeps, Keeps-refl, Keeps-trans, call-Keeps}
use cqupt_block_storage.Raft.Messages.{
  AppendEntriesRequest, AppendEntriesResponse, RaftMessageType, RaftMessagePayload,
}
use cqupt_block_storage.Raft.Core.State.{
  RaftCore, current_term, on_log, reset_election_ticks, role_eq, same_hard_state,
  update_current_term, become_follower_for_remote,
}
use cqupt_block_storage.Raft.Core.Progress.{
  sync_local_peer_progress, find_peer_progress, update_peer,
}
use cqupt_block_storage.Raft.Core.Commit.{copy_commit}
use cqupt_block_storage.Raft.Core.Replication.{
  build_append_entries_for_peer, entries_from, merge_entries, store_entries, follow_commit,
  follow_leader, take_role, refuse_entries, accept_entries, validate_append_entries_response,
  validate_append_entries_request, AppendResponseAction, failure, reply, handle_append_entries,
  record_match, record_mismatch, record_response, handle_append_entries_response,
}
use cqupt_block_storage.Raft.Core.Safety.{
  Leads, Leads-frame, Leads-vote, Leads-refl, Leads-trans, IsSafe, IsSafe-bind, IsSafe-then,
  IsSafe-check, IsSafe-pure, IsSafe-if, IsSafe-modify, IsSafe-on_log, IsSafe-either, IsSafe-update,
  Leads-if, safe_steps,
}
use cqupt_block_storage.Raft.Core.Safety.Methods.{
  stage_message-Leads, update_current_term-IsSafe, become_follower_for_remote-IsSafe,
  try_advance_commit_index-IsSafe,
}

-- The index of the first entry of a request is a 64-bit word.
abbrev pub FrontIsWord : List LogEntry → Type 0
FrontIsWord [] = ⊤
FrontIsWord (e ∷ es) = e.index < u64_mod

merge_entries-Keeps :
    (c : ConflictType) (i n : ℕ) (es : List LogEntry) (l : RaftLog)
    → IsValid l
    → FoundBy l n es c i
    → Keeps l (merge_entries (record { type = c; index = i }) es l).1
unfolding merge_entries
merge_entries-Keeps ConflictType.none i n es l v f = Keeps-refl l v
merge_entries-Keeps ConflictType.conflict i n es l v (_, _, _, _, _, inside, _) =
    go (truncate_suffix i l) (call-Keeps (Call.truncate_suffix i) l v (omega arith))
  where
    rest : List LogEntry
    rest = entries_from (record { type = ConflictType.conflict; index = i }) es

    go :
        (o : Result ⊤ × RaftLog)
        → Keeps l o.1
        → Keeps l (◌>>◌ {B = ⊤} (λ (k : RaftLog). o) (append rest) l).1
    go (ok a, k) p =
        Keeps-trans l k (append rest k).1 p (call-Keeps (Call.append rest) k p.valid tt)
    go (err e, k) p = p
merge_entries-Keeps ConflictType.append i n es l v f = call-Keeps (Call.append _) l v tt

-- What `HandleAppendEntries` does with the entries of a request, whatever it returns.
store_entries-Keeps :
    (es : List LogEntry) (l : RaftLog) → IsValid l → FrontIsWord es → Keeps l (store_entries es l).1
unfolding store_entries
store_entries-Keeps [] l v h = Keeps-refl l v
store_entries-Keeps (e ∷ es) l v h = go (find_conflict l (e ∷ es)) (find_conflict-Finds l e es v h)
  where
    go :
        (r : Result ConflictResult)
        → Finds l e.index (e ∷ es) r
        → Keeps l
            (elim r as (λ _. Result ⊤ × RaftLog) [
              | ok a ↦ merge_entries a (e ∷ es) l
              | err c ↦ (err c, l)
            ]).1
    go (ok r) f = merge_entries-Keeps r.type r.index e.index (e ∷ es) l v f.1
    go (err c) f = Keeps-refl l v

follow_commit-IsSafe : (n : ℕ) → IsSafe (follow_commit n)
unfolding follow_commit IsSafe
follow_commit-IsSafe n c = ground (arith, Leads-refl c, commit)
  where
    commit :
        Leads c ((on_log (advance_commit_to (min n (last_index c.log))) >> modify copy_commit) c).1
    commit =
        IsSafe-then (on_log (advance_commit_to (min n (last_index c.log)))) (modify copy_commit)
          (IsSafe-on_log (advance_commit_to _)
            λ l v. call-Keeps (Call.advance_commit_to (min n (last_index c.log))) l v tt)
          (IsSafe-modify copy_commit λ c. Leads-frame c (copy_commit c) refl refl refl refl refl) c

sync_local-Leads : (c : RaftCore) → Leads c (sync_local_peer_progress c)
unfolding sync_local_peer_progress
sync_local-Leads c = Leads-frame c _ refl refl refl refl refl

reply-Leads :
    (q : AppendEntriesRequest) (r : AppendEntriesResponse) (b : Bool) (i : ℕ) (c : RaftCore)
    → Leads c (reply q r b i c)
reply-Leads q r b i c =
    stage_message-Leads
      (record {
        type = RaftMessageType.append_entries_response;
        source_node_id = c.node_id;
        target_node_id = q.leader_id;
        payload = RaftMessagePayload.append_response r;
      })
      b i c

refuse_entries-IsSafe : (h : HardState) (q : AppendEntriesRequest) → IsSafe (refuse_entries h q)
unfolding refuse_entries
refuse_entries-IsSafe h q = search (safe_steps, stage_message-Leads)

accept_entries-IsSafe :
    (h : HardState) (n : ℕ) (q : AppendEntriesRequest)
    → FrontIsWord q.entries
    → IsSafe (accept_entries h n q)
unfolding accept_entries
accept_entries-IsSafe h n q w =
    IsSafe-then (on_log (store_entries q.entries)) _
      (IsSafe-on_log _ λ l v. store_entries-Keeps q.entries l v w)
      (IsSafe-then (follow_commit q.leader_commit) _ (follow_commit-IsSafe _) (
        IsSafe-then (modify sync_local_peer_progress) _ (IsSafe-modify _ sync_local-Leads) (
          IsSafe-bind
            (check λ d. ok (record (failure (current_term d)) {
              success = true;
              match_index = last_index d.log;
            }))
            _ (IsSafe-check _)
            λ r.
              IsSafe-then _ _
                (IsSafe-modify
                  (λ d.
                    reply q r (not (same_hard_state h d.hard_state))
                      (if ltb n (last_index d.log) then last_index d.log else invalid_log_index) d)
                  λ c. reply-Leads q r _ _ c)
                (IsSafe-pure r))))

adopt_leader-Leads :
    (n : ℕ) (c : RaftCore) → Leads c (reset_election_ticks (record c { leader_id = n }))
adopt_leader-Leads n c = Leads-frame c _ refl refl refl refl refl

follow_leader-IsSafe :
    (h : HardState) (n : ℕ) (q : AppendEntriesRequest)
    → FrontIsWord q.entries
    → IsSafe (follow_leader h n q)
unfolding follow_leader
follow_leader-IsSafe h n q w =
    IsSafe-then (modify λ c. reset_election_ticks (record c { leader_id = q.leader_id })) _
      (IsSafe-modify _ (adopt_leader-Leads q.leader_id))
      (IsSafe-if (λ c. not (matches c.log q.prev_log_index q.prev_log_term)) (refuse_entries h q)
        (accept_entries h n q) (refuse_entries-IsSafe h q) (accept_entries-IsSafe h n q w))

step_back-Leads :
    (c : RaftCore) → c.role ≡ RaftRole.candidate → Leads c (record c { role = RaftRole.follower })
step_back-Leads c h =
    Leads-vote c _ refl refl (omega arith) (λ e. ground (arith, e, h)) (λ _ _ _. refl)

take_role-IsSafe :
    (h : HardState) (n t : ℕ) (q : AppendEntriesRequest)
    → FrontIsWord q.entries
    → IsSafe (take_role h n t q)
unfolding take_role IsSafe
take_role-IsSafe h n t q w c =
    Leads-if c (role_eq c.role RaftRole.candidate) _ _
      (λ e.
        Leads-trans c (record c { role = RaftRole.follower }) _
          (step_back-Leads c (ground (arith, e))) (follow_leader-IsSafe h n q w _))
      λ _.
        Leads-if c (role_eq c.role RaftRole.leader && not (q.leader_id == c.node_id)) _ _
          (λ _. reply-Leads q (failure t) _ _ c) λ _. follow_leader-IsSafe h n q w c

take_newer_role-IsSafe :
    (q : AppendEntriesRequest)
    → FrontIsWord q.entries
    → IsSafe (λ c.
      (update_current_term q.term >> take_role c.hard_state (last_index c.log) (current_term c) q)
        c)
unfolding IsSafe
take_newer_role-IsSafe q w c =
    IsSafe-then (update_current_term q.term)
      (take_role c.hard_state (last_index c.log) (current_term c) q)
      (update_current_term-IsSafe q.term) (take_role-IsSafe _ _ _ q w) c

take_same_role-IsSafe :
    (q : AppendEntriesRequest)
    → FrontIsWord q.entries
    → IsSafe (λ c. take_role c.hard_state (last_index c.log) (current_term c) q c)
unfolding IsSafe
take_same_role-IsSafe q w c =
    take_role-IsSafe c.hard_state (last_index c.log) (current_term c) q w c

pub handle_append_entries-IsSafe :
    (q : AppendEntriesRequest) → FrontIsWord q.entries → IsSafe (handle_append_entries q)
unfolding handle_append_entries
handle_append_entries-IsSafe q w =
    IsSafe-then (check (validate_append_entries_request q)) _ (IsSafe-check _) (
      IsSafe-if (λ c. ltb q.term (current_term c)) _ _
        (IsSafe-update (λ c. ok (failure (current_term c)))
          (λ c. reply q (failure (current_term c)) false invalid_log_index c)
          λ c. reply-Leads q (failure (current_term c)) false invalid_log_index c)
        (IsSafe-if (λ c. ltb (current_term c) q.term)
          (λ c.
            (update_current_term q.term
                >> take_role c.hard_state (last_index c.log) (current_term c) q)
              c)
          (λ c. take_role c.hard_state (last_index c.log) (current_term c) q c)
          (take_newer_role-IsSafe q w) (take_same_role-IsSafe q w)))

pub build_append_entries_for_peer-IsSafe : (n : ℕ) → IsSafe (build_append_entries_for_peer n)
unfolding build_append_entries_for_peer IsSafe
build_append_entries_for_peer-IsSafe n = search (safe_steps, stage_message-Leads)

update_peer-Leads :
    (n : ℕ) (f : PeerProgress → PeerProgress) (c : RaftCore) → Leads c (update_peer n f c)
update_peer-Leads n f c = Leads-frame c _ refl refl refl refl refl

record_match-IsSafe : (s : ℕ) (r : AppendEntriesResponse) → IsSafe (record_match s r)
unfolding record_match IsSafe
record_match-IsSafe s r = search (safe_steps, try_advance_commit_index-IsSafe, update_peer-Leads)

record_mismatch-IsSafe : (s : ℕ) (r : AppendEntriesResponse) → IsSafe (record_mismatch s r)
unfolding record_mismatch IsSafe
record_mismatch-IsSafe s r = search (safe_steps, update_peer-Leads)

active-Leads :
    (n : ℕ) (c : RaftCore) → Leads c (update_peer n (λ p. record p { is_active = true }) c)
active-Leads n c = update_peer-Leads n _ c

record_response-IsSafe : (s : ℕ) (r : AppendEntriesResponse) → IsSafe (record_response s r)
unfolding record_response
record_response-IsSafe s r = IsSafe-bind (check (find_peer_progress s)) _ (IsSafe-check _) λ p.
    IsSafe-then (modify (update_peer s λ p. record p { is_active = true })) _
      (IsSafe-modify _ (active-Leads s))
      (IsSafe-if (λ _. r.success) (record_match s r) (record_mismatch s r) (record_match-IsSafe s r)
        (record_mismatch-IsSafe s r))

step_down-IsSafe :
    (t : ℕ)
    → IsSafe (λ c.
      ((if role_eq c.role RaftRole.learner
            then update_current_term t
            else become_follower_for_remote t invalid_node_id)
          >> pure AppendResponseAction.stepped_down)
        c)
unfolding IsSafe
step_down-IsSafe t c =
    IsSafe-then
      (if role_eq c.role RaftRole.learner
        then update_current_term t
        else become_follower_for_remote t invalid_node_id)
      (pure AppendResponseAction.stepped_down)
      (IsSafe-either (role_eq c.role RaftRole.learner) _ _ (update_current_term-IsSafe t)
        (become_follower_for_remote-IsSafe t invalid_node_id))
      (IsSafe-pure AppendResponseAction.stepped_down) c

pub handle_append_entries_response-IsSafe :
    (s : ℕ) (r : AppendEntriesResponse) → IsSafe (handle_append_entries_response s r)
unfolding handle_append_entries_response
handle_append_entries_response-IsSafe s r =
    IsSafe-then (check (validate_append_entries_response s r)) _ (IsSafe-check _) (
      IsSafe-if (λ c. ltb r.term (current_term c)) _ _
        (IsSafe-update (λ _. ok AppendResponseAction.none) (λ c. c) Leads-refl)
        (IsSafe-if (λ c. ltb (current_term c) r.term) _ _ (step_down-IsSafe r.term)
          (IsSafe-if (λ c. not (role_eq c.role RaftRole.leader)) _ _
            (IsSafe-update (λ _. ok AppendResponseAction.none) (λ c. c) Leads-refl)
            (record_response-IsSafe s r))))
