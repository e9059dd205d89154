-- ===== src/Raft/Core/Replication.antt =====
-- `AppendEntries`: what the leader builds, what a follower does with it, and the answer.
use cqupt_block_storage.Base.{
  ℕ, zero, suc, ◌-◌, List, [], ◌∷◌, Bool, true, false, not, ◌&&◌, ltb, leb, ◌==◌, if◌then◌else◌,
  inc_u64, sub_u64, drop, min, max,
}
use cqupt_block_storage.Common.Status
use cqupt_block_storage.Common.Status.{
  Result, ok, err, ⊤, StatusCode, invalid_argument, retry_later,
}
use cqupt_block_storage.Common.Action.{Action, pure, check, modify, refuse_if, ◌>>=◌, ◌>>◌}
use cqupt_block_storage.Raft.Log.{
  RaftLog, last_index, first_index, get_term, get_entries, matches, find_conflict, truncate_suffix,
  append, advance_commit_to, back_index,
}
use cqupt_block_storage.Raft.Messages.{
  AppendEntriesRequest, AppendEntriesResponse, RaftMessageType, RaftMessagePayload,
}
use cqupt_block_storage.Raft.Types.{
  LogEntry, HardState, RaftRole, ConflictType, ConflictResult, invalid_node_id, invalid_log_index,
  initial_term,
}
use cqupt_block_storage.Raft.Core.State.{
  RaftCore, current_term, role_eq, require_initialized, same_hard_state, has_dirty_hard_state,
  reset_election_ticks, update_current_term, become_follower_for_remote, on_log, contains_node,
}
use cqupt_block_storage.Raft.Core.Progress.{
  find_peer_progress, update_peer, sync_local_peer_progress, clamp_peer_next_index,
}
use cqupt_block_storage.Raft.Core.Commit.{copy_commit, try_advance_commit_index}
use cqupt_block_storage.Raft.Core.Outbox.{stage_message}

pub data AppendResponseAction : Type 0 where
  none accepted rejected stepped_down : AppendResponseAction

unfoldable pub build_heartbeat : RaftCore → Result AppendEntriesRequest
unfolding get_term last_index
build_heartbeat c = Status.◌>>◌ (require_initialized c) (
    if not (role_eq c.role RaftRole.leader)
    then err invalid_argument
    else Status.◌>>=◌ (get_term c.log (last_index c.log)) λ prev_term. ok (record {
      term = current_term c;
      leader_id = c.node_id;
      prev_log_index = last_index c.log;
      prev_log_term = prev_term;
      entries = [];
      leader_commit = c.log.commit_index;
    }))

-- the request of `BuildAppendEntriesForPeer`
unfoldable pub append_request_for : ℕ → RaftCore → Result AppendEntriesRequest
unfolding find_peer_progress get_term get_entries last_index
append_request_for target c = Status.◌>>=◌ (find_peer_progress target c) λ progress.
    if leb progress.next_index c.log.snapshot_index
    then err retry_later
    else let prev = sub_u64 progress.next_index 1 in
      Status.◌>>=◌ (get_term c.log prev) λ prev_term.
        Status.◌>>=◌
          (if leb progress.next_index (last_index c.log)
            then get_entries c.log progress.next_index (inc_u64 (last_index c.log))
            else ok [])
          λ entries. ok (record {
            term = current_term c;
            leader_id = c.node_id;
            prev_log_index = prev;
            prev_log_term = prev_term;
            entries = entries;
            leader_commit = c.log.commit_index;
          })

unfoldable pub build_append_entries_for_peer : ℕ → Action RaftCore AppendEntriesRequest
unfolding append_request_for stage_message
build_append_entries_for_peer target = do
  check require_initialized
  refuse_if (λ c. not (role_eq c.role RaftRole.leader)) invalid_argument
  refuse_if (λ c. target == c.node_id) invalid_argument
  request ← check (append_request_for target)
  modify λ c.
      stage_message
        (record {
          type = RaftMessageType.append_entries_request;
          source_node_id = c.node_id;
          target_node_id = target;
          payload = RaftMessagePayload.append_request request;
        })
        (has_dirty_hard_state c) (back_index invalid_log_index request.entries) c
  pure request

-- the loop of `FindFirstIndexOfTerm`, from `index` down to the boundary, on the rounds left
scan_first : RaftLog → ℕ → ℕ → ℕ → ℕ
unfolding get_term
scan_first l term zero index = index
scan_first l term (suc rounds) index =
    let rest = scan_first l term rounds (index - 1) in
    elim (get_term l index) [ err e ↦ index | ok t ↦ if t == term then rest else index ]

unfoldable pub find_first_index_of_term : RaftLog → ℕ → ℕ → ℕ
unfolding scan_first
find_first_index_of_term l term hint =
    if hint == l.snapshot_index && term == l.snapshot_term
    then hint
    else inc_u64 (scan_first l term (hint - l.snapshot_index) hint)

-- the loop of `FindLastIndexOfTerm`; 0 where it ends without a hit
scan_last : RaftLog → ℕ → ℕ → ℕ → ℕ
unfolding get_term
scan_last l term zero index = invalid_log_index
scan_last l term (suc rounds) index =
    let rest = scan_last l term rounds (index - 1) in
    elim (get_term l index) [
      | err e ↦ invalid_log_index
      | ok t ↦ if t == term then index else if ltb t term then invalid_log_index else rest
    ]

-- an index that the loop returns is above the boundary, so never 0
unfoldable pub find_last_index_of_term : RaftLog → ℕ → ℕ
unfolding scan_last last_index
find_last_index_of_term l term =
    let found = scan_last l term (last_index l - l.snapshot_index) (last_index l) in
    if not (found == invalid_log_index)
    then found
    else if term == l.snapshot_term
    then l.snapshot_index
    else invalid_log_index

-- `ValidateAppendEntriesRequest`
unfoldable pub validate_append_entries_request : AppendEntriesRequest → RaftCore → Result ⊤
validate_append_entries_request q c =
    if not c.initialized
    then err invalid_argument
    else if q.leader_id == invalid_node_id
    then err invalid_argument
    else if ltb invalid_log_index q.prev_log_index && q.prev_log_term == initial_term
    then err invalid_argument
    else ok tt

-- `ResetAppendResponse`
abbrev pub failure : ℕ → AppendEntriesResponse
failure term = record {
  term = term;
  success = false;
  match_index = invalid_log_index;
  conflict_index = invalid_log_index;
  conflict_term = initial_term;
}

-- the message that carries a response to the leader
abbrev pub reply : AppendEntriesRequest → AppendEntriesResponse → Bool → ℕ → RaftCore → RaftCore
reply q r require_hard_state required_stable_index c =
    stage_message
      (record {
        type = RaftMessageType.append_entries_response;
        source_node_id = c.node_id;
        target_node_id = q.leader_id;
        payload = RaftMessagePayload.append_response r;
      })
      require_hard_state required_stable_index c

-- the response to a request whose previous entry the log does not have
unfoldable pub mismatch_response : AppendEntriesRequest → RaftCore → Result AppendEntriesResponse
unfolding last_index get_term first_index find_first_index_of_term
mismatch_response q c =
    let response = failure (current_term c) in
    if ltb (last_index c.log) q.prev_log_index
    then ok (record response { conflict_index = inc_u64 (last_index c.log) })
    else elim (get_term c.log q.prev_log_index) [
      | err e ↦
          if ltb q.prev_log_index (first_index c.log)
          then ok (record response {
            conflict_index = first_index c.log;
            conflict_term = c.log.snapshot_term;
          })
          else err e
      | ok conflict_term ↦ ok (record response {
        conflict_term = conflict_term;
        conflict_index = find_first_index_of_term c.log conflict_term q.prev_log_index;
      })
    ]

-- the entries from the one that the conflict names on
abbrev pub entries_from : ConflictResult → List LogEntry → List LogEntry
entries_from r [] = []
entries_from r (e ∷ es) = drop (sub_u64 r.index e.index) (e ∷ es)

-- what is done with the entries of a request, by the kind of conflict
unfoldable pub merge_entries : ConflictResult → List LogEntry → Action RaftLog ⊤
unfolding truncate_suffix append
merge_entries r entries = elim r.type [
  | ConflictType.none ↦ pure tt
  | ConflictType.conflict ↦ truncate_suffix r.index >> append (entries_from r entries)
  | ConflictType.append ↦ append (entries_from r entries)
]

unfoldable pub store_entries : List LogEntry → Action RaftLog ⊤
unfolding find_conflict merge_entries
store_entries [] = pure tt
store_entries (e ∷ es) = do r ← check λ l. find_conflict l (e ∷ es); merge_entries r (e ∷ es)

unfoldable pub follow_commit : ℕ → Action RaftCore ⊤
unfolding last_index advance_commit_to
follow_commit leader_commit c =
    let target = min leader_commit (last_index c.log) in
    if ltb c.log.commit_index target
    then (do on_log (advance_commit_to target); modify copy_commit) c
    else (ok tt, c)

-- `HandleAppendEntries` where the previous entry of the request is not in the log
unfoldable pub refuse_entries :
    HardState → AppendEntriesRequest → Action RaftCore AppendEntriesResponse
unfolding mismatch_response stage_message
refuse_entries before q = do
  response ← check (mismatch_response q)
  modify λ d. reply q response (not (same_hard_state before d.hard_state)) invalid_log_index d
  pure response

-- and where it is
unfoldable pub accept_entries :
    HardState → ℕ → AppendEntriesRequest → Action RaftCore AppendEntriesResponse
unfolding store_entries follow_commit sync_local_peer_progress last_index stage_message
accept_entries before before_last q = do
  on_log (store_entries q.entries)
  follow_commit q.leader_commit
  modify sync_local_peer_progress
  response ←
      check λ d.
        ok (record (failure (current_term d)) { success = true; match_index = last_index d.log })
  modify λ d.
      reply q response (not (same_hard_state before d.hard_state))
        (if ltb before_last (last_index d.log) then last_index d.log else invalid_log_index) d
  pure response

-- `HandleAppendEntries` once the sender is accepted as the leader
unfoldable pub follow_leader :
    HardState → ℕ → AppendEntriesRequest → Action RaftCore AppendEntriesResponse
unfolding matches refuse_entries accept_entries
follow_leader before before_last q = do
  modify λ c. reset_election_ticks (record c { leader_id = q.leader_id })
  λ c.
      if not (matches c.log q.prev_log_index q.prev_log_term)
      then refuse_entries before q c
      else accept_entries before before_last q c

-- the branches on the role, once the term of the request has been taken over
unfoldable pub take_role :
    HardState → ℕ → ℕ → AppendEntriesRequest → Action RaftCore AppendEntriesResponse
unfolding follow_leader stage_message
take_role before before_last before_term q c =
    if role_eq c.role RaftRole.candidate
    then follow_leader before before_last q (record c { role = RaftRole.follower })
    else if role_eq c.role RaftRole.leader && not (q.leader_id == c.node_id)
    then (
      ok (failure before_term),
      reply q (failure before_term) (not (same_hard_state before c.hard_state)) invalid_log_index c,
    )
    else follow_leader before before_last q c

unfoldable pub handle_append_entries : AppendEntriesRequest → Action RaftCore AppendEntriesResponse
unfolding validate_append_entries_request update_current_term take_role last_index stage_message
handle_append_entries q = do
  check (validate_append_entries_request q)
  λ c.
      if ltb q.term (current_term c)
      then (
        ok (failure (current_term c)),
        reply q (failure (current_term c)) false invalid_log_index c,
      )
      else if ltb (current_term c) q.term
      then (update_current_term q.term
            >> take_role c.hard_state (last_index c.log) (current_term c) q)
          c
      else take_role c.hard_state (last_index c.log) (current_term c) q c

-- `ValidateAppendEntriesResponse`
unfoldable pub validate_append_entries_response : ℕ → AppendEntriesResponse → RaftCore → Result ⊤
unfolding contains_node last_index
validate_append_entries_response source r c =
    if not c.initialized
    then err invalid_argument
    else if source == invalid_node_id
    then err invalid_argument
    else if not (contains_node c.voter_ids source) && not (contains_node c.learner_ids source)
    then err invalid_argument
    else if r.success
        && r.match_index == invalid_log_index
        && not (last_index c.log == invalid_log_index)
    then err invalid_argument
    else if not r.success && r.term == current_term c && r.conflict_index == invalid_log_index
    then err invalid_argument
    else ok tt

-- the branch of a successful response
unfoldable pub record_match : ℕ → AppendEntriesResponse → Action RaftCore AppendResponseAction
unfolding last_index try_advance_commit_index
record_match source r = do
  refuse_if (λ c. ltb (last_index c.log) r.match_index) invalid_argument
  modify λ c.
      update_peer source
        (λ p.
          let m = (if ltb p.match_index r.match_index then r.match_index else p.match_index) in
          record p { match_index = m; next_index = max p.next_index (inc_u64 m) })
        c
  try_advance_commit_index
  pure AppendResponseAction.accepted

-- where a refused leader goes on
unfoldable pub retry_index : AppendEntriesResponse → RaftCore → ℕ
unfolding find_last_index_of_term clamp_peer_next_index
retry_index r c =
    let local_index = find_last_index_of_term c.log r.conflict_term in
    clamp_peer_next_index c (
      if not (r.conflict_term == initial_term) && not (local_index == invalid_log_index)
      then inc_u64 local_index
      else r.conflict_index)

unfoldable pub record_mismatch : ℕ → AppendEntriesResponse → Action RaftCore AppendResponseAction
unfolding retry_index
record_mismatch source r = do
  modify
      λ c. update_peer source (λ p. record p { next_index = min p.next_index (retry_index r c) }) c
  pure AppendResponseAction.rejected

-- the leader's branch, in the current term
unfoldable pub record_response : ℕ → AppendEntriesResponse → Action RaftCore AppendResponseAction
unfolding find_peer_progress record_match record_mismatch
record_response source r = do
  progress ← check (find_peer_progress source)
  modify (update_peer source (λ p. record p { is_active = true }))
  λ c. if r.success then record_match source r c else record_mismatch source r c

unfoldable pub handle_append_entries_response :
    ℕ → AppendEntriesResponse → Action RaftCore AppendResponseAction
unfolding validate_append_entries_response update_current_term become_follower_for_remote
    record_response
handle_append_entries_response source r = do
  check (validate_append_entries_response source r)
  λ c.
      if ltb r.term (current_term c)
      then (ok AppendResponseAction.none, c)
      else if ltb (current_term c) r.term
      then ((if role_eq c.role RaftRole.learner
              then update_current_term r.term
              else become_follower_for_remote r.term invalid_node_id)
            >> pure AppendResponseAction.stepped_down)
          c
      else if not (role_eq c.role RaftRole.leader)
      then (ok AppendResponseAction.none, c)
      else record_response source r c
