-- ===== src/Raft/Core/Safety/Persistence.antt =====
-- A vote is answered only once it is stored: `HandleRequestVote` and the queues.
use cqupt_block_storage.Base.{ℕ, ◌≡◌, ◌≢◌, ◌⊎◌, subst, sym, ◌∙◌, true, false, arith, not}
use cqupt_block_storage.Common.Status.{ok}
use cqupt_block_storage.Raft.Types.{HardState, invalid_log_index}
use cqupt_block_storage.Raft.Messages.{
  RequestVoteRequest, RequestVoteResponse, RaftMessage, RaftMessageType, RaftMessagePayload,
}
use cqupt_block_storage.Raft.Core.State.{
  RaftCore, current_term, same_hard_state, become_follower_for_remote,
}
use cqupt_block_storage.Raft.Log.{RaftLog}
use cqupt_block_storage.Raft.Core.Outbox.{stage_message, reclassify_blocked_messages}
use cqupt_block_storage.Raft.Core.Election.{
  answer_vote, decide_vote, send_vote, handle_request_vote,
}
use cqupt_block_storage.Raft.Core.Safety.Votes.{answer_vote-Grants}
use cqupt_block_storage.Raft.Core.Safety.Queues.{
  Places, is_blocked, stored, stage_message-Places, stage_message-hard_state,
}

-- The answer that a node sends to a candidate.
abbrev pub answer_message : ℕ → RequestVoteRequest → RequestVoteResponse → RaftMessage
answer_message n q r = record {
  type = RaftMessageType.request_vote_response;
  source_node_id = n;
  target_node_id = q.candidate_id;
  payload = RaftMessagePayload.vote_response r;
}

answer_vote-persisted :
    (q : RequestVoteRequest) (c : RaftCore)
    → ((answer_vote q c).1.persisted_hard_state ≡ c.persisted_hard_state)
      × ((answer_vote q c).1.node_id ≡ c.node_id)
unfolding answer_vote decide_vote become_follower_for_remote
answer_vote-persisted q c = ground arith

other_hard_state :
    (h k : HardState)
    → (h.current_term ≢ k.current_term) ⊎ (h.voted_for ≢ k.voted_for)
    → same_hard_state h k ≡ false
other_hard_state h k d = ground (arith, d)

-- The only message of its type and target waits, and once the hard state `h` and the log `l` are
-- what the storage has, `ReclassifyBlockedMessages` lets it go exactly where `h` is the hard state
-- of the node.
abbrev pub WaitsForHardState : RaftMessage → HardState → RaftLog → RaftCore → Type 0
WaitsForHardState m h l d =
    Places m true d
    × Places m (not (same_hard_state d.hard_state h)) (reclassify_blocked_messages (stored h l d))

sent_waits :
    (q : RequestVoteRequest) (h : HardState) (r : RequestVoteResponse) (c : RaftCore)
    (stable : HardState) (l : RaftLog)
    → c.persisted_hard_state ≡ h
    → (current_term c ≢ h.current_term) ⊎ (c.hard_state.voted_for ≢ h.voted_for)
    → WaitsForHardState (answer_message c.node_id q r) stable l (send_vote q h r c)
unfolding send_vote
sent_waits q h r c stable l p d =
    let m = answer_message c.node_id q r in
    let b = not (same_hard_state h c.hard_state) in
    let staged = stage_message m b invalid_log_index c in
    let changed : b ≡ true = ground (arith, other_hard_state h c.hard_state (ground (arith, d))) in
    let dirty : same_hard_state c.hard_state c.persisted_hard_state ≡ false =
      ground (arith, p, other_hard_state c.hard_state h (ground (arith, d))) in
    let kept = stage_message-hard_state m b invalid_log_index c in
    let (now, _, later) = stage_message-Places m b invalid_log_index c stable l in
    let blocked : is_blocked b invalid_log_index c c ≡ true = ground (arith, changed, dirty) in
    let free : is_blocked b invalid_log_index c (stored stable l staged)
        ≡ not (same_hard_state staged.hard_state stable) =
      ground (arith, changed, dirty) in
    (
      subst (λ x. Places m x staged) blocked now,
      subst (λ x. Places m x (reclassify_blocked_messages (stored stable l staged))) free later,
    )

-- The answer, and what is left of the call once it is computed.
handle_request_vote-sent :
    (q : RequestVoteRequest) (c : RaftCore) (r : RequestVoteResponse)
    → (handle_request_vote q c).0 ≡ ok r
    → ((answer_vote q c).0 ≡ ok r)
      × ((handle_request_vote q c).1 ≡ send_vote q c.hard_state r (answer_vote q c).1)
unfolding handle_request_vote
handle_request_vote-sent q c r h = (ground arith, ground arith)

-- Where the hard state of a node is stored and `HandleRequestVote` grants a vote that is new (the
-- term of the answer is not the term before the call, or the candidate is not the one voted for
-- before it), the vote response with this answer is afterwards the only one to the candidate in
-- the queues, and it waits; when then any hard state is stored and the log is any log,
-- `ReclassifyBlockedMessages` keeps it waiting where the stored hard state is not the one that the
-- call left, and otherwise lets it be sent.
pub granted_vote_waits :
    (q : RequestVoteRequest) (c : RaftCore) (r : RequestVoteResponse) (h : HardState) (l : RaftLog)
    → c.persisted_hard_state ≡ c.hard_state
    → (handle_request_vote q c).0 ≡ ok r
    → r.vote_granted ≡ true
    → (r.term ≢ current_term c) ⊎ (q.candidate_id ≢ c.hard_state.voted_for)
    → WaitsForHardState (answer_message c.node_id q r) h l (handle_request_vote q c).1
granted_vote_waits q c r h l p done g d =
    let c' = (answer_vote q c).1 in
    let (answered, sent) = handle_request_vote-sent q c r done in
    let v = answer_vote-Grants q c r answered g in
    let k = answer_vote-persisted q c in
    let waits =
      sent_waits q c.hard_state r c' h l (k.0 ∙ p) (ground (arith, v.same_term, v.vote, d)) in
    subst (WaitsForHardState (answer_message c.node_id q r) h l) (sym sent) (
      subst (λ n. WaitsForHardState (answer_message n q r) h l (send_vote q c.hard_state r c')) k.1
        waits)
