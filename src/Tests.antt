-- ===== src/Tests.antt =====
-- The theorems at concrete inputs: a log of three entries, two of them committed, and a node of
-- three voters that has it.
mod Metadata
mod Store
mod Storage
use cqupt_block_storage.Base.{
  ℕ, suc, ◌≡◌, ◌≢◌, inr, refl, ◌↔◌, List, [], ◌∷◌, true, false, arith, length, get_elem?, ◌+◌, ◌-◌,
  ◌<◌,
}
use cqupt_block_storage.Common.Status.{ok}
use cqupt_block_storage.Raft.Types.{LogEntry, LogEntryType, RaftRole, PeerProgress}
use cqupt_block_storage.Raft.Membership.{no_membership}
use cqupt_block_storage.Raft.Messages.{
  RaftMessage, RaftMessageType, RaftMessagePayload, RequestVoteRequest, RequestVoteResponse,
  VoteRejectReason, AppendEntriesRequest,
}
use cqupt_block_storage.Raft.Log.{
  RaftLog, get_entry, get_term, get_entries, validate_entries, append, truncate_suffix,
  advance_stable_to, advance_commit_to, advance_applied_to, find_conflict, update_snapshot_boundary,
}
use cqupt_block_storage.Raft.Log.Invariant.{IsValid, Continues, last, validate_entries_iff}
use cqupt_block_storage.Raft.Log.Updates.{
  Appends, Truncates, Advances, append-Appends, truncate_suffix-Truncates,
  advance_stable_to-Advances, advance_commit_to-Advances, advance_applied_to-Advances,
}
use cqupt_block_storage.Raft.Log.Reads.{
  entry_at, or_not_found, term_at, get_entry-entry_at, get_term-term_at, get_entries-entry_at,
}
use cqupt_block_storage.Raft.Log.Compaction.{Compacts, update_snapshot_boundary-Compacts}
use cqupt_block_storage.Raft.Log.Conflict.{Finds, find_conflict-Finds}
use cqupt_block_storage.Raft.Log.History.{Call, Keeps, run, run-Keeps}
use cqupt_block_storage.Raft.Core.State.{RaftCore, contains_node, current_term}
use cqupt_block_storage.Raft.Types.{HardState}
use cqupt_block_storage.Raft.Core.Commit.{count_matches, has_quorum_at, try_advance_commit_index}
use cqupt_block_storage.Raft.Core.Progress.{find_peer_progress}
use cqupt_block_storage.Raft.Core.Outbox.{stage_message, reclassify_blocked_messages}
use cqupt_block_storage.Raft.Core.Safety.Quorums.{Reaches, has_quorum_at-Reaches}
use cqupt_block_storage.Raft.Core.Safety.Persistence.{
  answer_message, granted_vote_waits, WaitsForHardState,
}
use cqupt_block_storage.Raft.Core.Safety.Queues.{
  Places, KeepsOthers, stored, is_blocked, stage_message-Places,
}
use cqupt_block_storage.Raft.Core.Election.{handle_request_vote}
use cqupt_block_storage.Raft.Core.Replication.{handle_append_entries, store_entries}
use cqupt_block_storage.Raft.Core.Safety.{Follows}
use cqupt_block_storage.Raft.Core.Safety.Entries.{Stores, store_entries-Stores}
use cqupt_block_storage.Raft.Core.Safety.Commits.{Commits, try_advance_commit_index-Commits}
use cqupt_block_storage.Raft.Core.Safety.Runs.{Event, after, history, history-Follows}
use cqupt_block_storage.Raft.Core.Safety.Votes.{one_vote_in_a_term}

abbrev entry : ℕ → ℕ → LogEntry
entry i t = record { index = i; term = t; type = LogEntryType.command; payload = i ∷ [] }

abbrev three : RaftLog
three = record {
  entries = entry 1 1 ∷ entry 2 1 ∷ entry 3 2 ∷ [];
  snapshot_index = 0;
  snapshot_term = 0;
  stable_index = 3;
  commit_index = 2;
  applied_index = 1;
}

three-IsValid : IsValid three
three-IsValid = omega arith

abbrev progress : ℕ → ℕ → PeerProgress
progress n m = record {
  node_id = n;
  is_learner = false;
  is_active = true;
  match_index = m;
  next_index = suc m;
}

abbrev node : RaftRole → ℕ → RaftCore
node role vote = record {
  node_id = 1;
  role = role;
  leader_id = 0;
  logical_ticks = 0;
  election_elapsed_ticks = 0;
  election_timeout_ticks = 1;
  hard_state = record {
    current_term = 2;
    voted_for = vote;
    commit_index = 2;
    membership_configuration_id = 0;
  };
  log = three;
  voter_ids = 1 ∷ 2 ∷ 3 ∷ [];
  learner_ids = [];
  membership_state = no_membership;
  peer_progress = (1, progress 1 3) ∷ (2, progress 2 3) ∷ (3, progress 3 0) ∷ [];
  persisted_hard_state = record {
    current_term = 2;
    voted_for = vote;
    commit_index = 2;
    membership_configuration_id = 0;
  };
  immediate_messages = [];
  persisted_messages = [];
  initialized = true;
}

validate_entries_iff_example :
    (validate_entries three (entry 4 2 ∷ []) 4 ≡ ok tt) ↔ Continues three 4 (entry 4 2 ∷ [])
validate_entries_iff_example = validate_entries_iff three 4 (entry 4 2) [] (omega arith)

append-Appends_example : Appends three (entry 4 2 ∷ []) (append (entry 4 2 ∷ []) three)
append-Appends_example = append-Appends three (entry 4 2 ∷ []) three-IsValid

truncate_suffix-Truncates_example : Truncates three 3 (truncate_suffix 3 three)
truncate_suffix-Truncates_example = truncate_suffix-Truncates three 3 three-IsValid (omega arith)

advance_stable_to-Advances_example :
    Advances
      (λ k. k.stable_index)
      last
      (λ k j. record k { stable_index = j })
      three
      3
      (advance_stable_to 3 three)
advance_stable_to-Advances_example = advance_stable_to-Advances three 3 three-IsValid

advance_commit_to-Advances_example :
    Advances
      (λ k. k.commit_index)
      last
      (λ k j. record k { commit_index = j })
      three
      3
      (advance_commit_to 3 three)
advance_commit_to-Advances_example = advance_commit_to-Advances three 3 three-IsValid

advance_applied_to-Advances_example :
    Advances
      (λ k. k.applied_index)
      (λ k. k.commit_index)
      (λ k j. record k { applied_index = j })
      three
      2
      (advance_applied_to 2 three)
advance_applied_to-Advances_example = advance_applied_to-Advances three 2 three-IsValid

get_entry-entry_at_example : get_entry three 2 ≡ or_not_found (entry_at three 2)
get_entry-entry_at_example = get_entry-entry_at three 2 three-IsValid (omega arith)

get_term-term_at_example : get_term three 3 ≡ or_not_found (term_at three 3)
get_term-term_at_example = get_term-term_at three 3 three-IsValid (omega arith)

get_entries-entry_at_example :
    (es : List LogEntry) × (get_entries three 2 4 ≡ ok es)
    × (length es ≡ 4 - 2)
    × ((k : ℕ) → k < 4 - 2 → get_elem? es k ≡ entry_at three (2 + k))
get_entries-entry_at_example =
    get_entries-entry_at three 2 4 three-IsValid (omega arith) (omega arith) (omega arith)
      (omega arith)

update_snapshot_boundary-Compacts_example : Compacts three 1 1 (update_snapshot_boundary 1 1 three)
update_snapshot_boundary-Compacts_example =
    update_snapshot_boundary-Compacts three 1 1 three-IsValid

find_conflict-Finds_example :
    Finds three 3 (entry 3 3 ∷ entry 4 3 ∷ []) (find_conflict three (entry 3 3 ∷ entry 4 3 ∷ []))
find_conflict-Finds_example =
    find_conflict-Finds three (entry 3 3) (entry 4 3 ∷ []) three-IsValid (omega arith)

abbrev calls : List Call
calls =
    Call.truncate_suffix 3
    ∷ Call.append (entry 3 3 ∷ [])
    ∷ Call.advance_commit_to 3
    ∷ Call.advance_applied_to 3
    ∷ Call.update_snapshot_boundary 2 1
    ∷ []

run-Keeps_example : Keeps three (run calls three)
run-Keeps_example = run-Keeps calls three three-IsValid (omega arith, (tt, (tt, (tt, (tt, tt)))))

store_entries-Stores_example :
    Stores three 3 (entry 3 3 ∷ entry 4 3 ∷ []) (store_entries (entry 3 3 ∷ entry 4 3 ∷ []) three)
store_entries-Stores_example =
    store_entries-Stores (entry 3 3) (entry 4 3 ∷ []) three three-IsValid (omega arith)

try_advance_commit_index-Commits_example :
    Commits (node RaftRole.leader 1) 3 (try_advance_commit_index (node RaftRole.leader 1))
try_advance_commit_index-Commits_example =
    try_advance_commit_index-Commits (node RaftRole.leader 1) three-IsValid

quorum_known : has_quorum_at (node RaftRole.leader 1) 3 ≡ ok true
unfolding has_quorum_at count_matches find_peer_progress
quorum_known = refl

quorum_known_below : has_quorum_at (node RaftRole.follower 2) 1 ≡ ok true
unfolding has_quorum_at count_matches find_peer_progress
quorum_known_below = refl

has_quorum_at-Reaches_example :
    (id : ℕ) × (contains_node (1 ∷ 2 ∷ 3 ∷ []) id ≡ true)
    × Reaches (node RaftRole.leader 1) 3 id
    × Reaches (node RaftRole.follower 2) 1 id
has_quorum_at-Reaches_example =
    has_quorum_at-Reaches (node RaftRole.leader 1) (node RaftRole.follower 2) 3 1 (1 ∷ 2 ∷ 3 ∷ [])
      refl refl quorum_known quorum_known_below

abbrev message : RaftMessage
message = record {
  type = RaftMessageType.request_vote_request;
  source_node_id = 1;
  target_node_id = 2;
  payload =
      RaftMessagePayload.vote_request
        (record { term = 2; candidate_id = 1; last_log_index = 3; last_log_term = 2 });
}

-- A hard state of the next term, and a leader that has not stored it.
abbrev later : HardState
later = record {
  current_term = 3;
  voted_for = 1;
  commit_index = 2;
  membership_configuration_id = 0;
}

abbrev voting : RaftCore
voting = record (node RaftRole.leader 1) { hard_state = later }

stage_message-Places_example :
    Places message (is_blocked true 4 voting voting) (stage_message message true 4 voting)
    × KeepsOthers message voting (stage_message message true 4 voting)
    × Places message
        (is_blocked true 4 voting (stored later three (stage_message message true 4 voting)))
        (reclassify_blocked_messages (stored later three (stage_message message true 4 voting)))
stage_message-Places_example = stage_message-Places message true 4 voting later three

abbrev vote_request : ℕ → RequestVoteRequest
vote_request n = record { term = 2; candidate_id = n; last_log_index = 3; last_log_term = 2 }

abbrev vote_longer : ℕ → RequestVoteRequest
vote_longer n = record { term = 2; candidate_id = n; last_log_index = 4; last_log_term = 2 }

abbrev grant : RequestVoteResponse
grant = record { term = 2; vote_granted = true; reject_reason = VoteRejectReason.none }

abbrev heartbeat : AppendEntriesRequest
heartbeat = record {
  term = 2;
  leader_id = 2;
  prev_log_index = 3;
  prev_log_term = 2;
  entries = entry 4 2 ∷ [];
  leader_commit = 3;
}

abbrev events : List Event
events =
    Event.handle_request_vote (vote_request 2)
    ∷ Event.handle_append_entries heartbeat
    ∷ Event.tick
    ∷ []

abbrev follower : RaftCore
follower = node RaftRole.follower 0

-- The node after the vote, and after the entry.
abbrev voted : RaftCore
voted = after (Event.handle_request_vote (vote_request 2)) follower

abbrev fed : RaftCore
fed = after (Event.handle_append_entries heartbeat) voted

-- The term is still the one of the vote.
fed-term : current_term fed ≡ 2
unfolding after handle_request_vote handle_append_entries
fed-term = refl

history-Follows_example : Follows follower (history events follower)
history-Follows_example =
    history-Follows events follower three-IsValid (tt, (omega arith, (omega (arith, fed-term), tt)))

voted-IsValid : IsValid (handle_request_vote (vote_request 2) follower).1.log
unfolding handle_request_vote
voted-IsValid = three-IsValid

vote_granted : (handle_request_vote (vote_request 2) follower).0 ≡ ok grant
unfolding handle_request_vote
vote_granted = refl

two_is_not_zero : 2 ≢ follower.hard_state.voted_for
two_is_not_zero = omega arith

granted_vote_waits_example :
    WaitsForHardState
      (answer_message 1 (vote_request 2) grant)
      later
      three
      (handle_request_vote (vote_request 2) follower).1
granted_vote_waits_example =
    granted_vote_waits (vote_request 2) follower grant later three refl vote_granted refl
      (inr two_is_not_zero)

abbrev between : List Event
between = Event.handle_append_entries heartbeat ∷ []

vote_granted_again :
    (handle_request_vote
      (vote_longer 2)
      (history between (handle_request_vote (vote_request 2) follower).1)).0
    ≡ ok grant
unfolding handle_request_vote handle_append_entries history after
vote_granted_again = refl

one_vote_in_a_term_example : (vote_longer 2).candidate_id ≡ (vote_request 2).candidate_id
one_vote_in_a_term_example =
    one_vote_in_a_term (vote_request 2) (vote_longer 2) grant grant follower between voted-IsValid
      (omega arith, tt) vote_granted refl vote_granted_again refl refl
