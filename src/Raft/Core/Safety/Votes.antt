-- ===== src/Raft/Core/Safety/Votes.antt =====
-- A node votes for one candidate in a term: `HandleRequestVote` over a whole history.
use cqupt_block_storage.Base.{ℕ, ◌≤◌, ◌≡◌, ◌≢◌, sym, ◌∙◌, List, true, arith}
use cqupt_block_storage.Common.Status.{ok}
use cqupt_block_storage.Raft.Types.{RaftRole, HardState}
use cqupt_block_storage.Raft.Log.Invariant.{IsValid}
use cqupt_block_storage.Raft.Messages.{RequestVoteRequest, RequestVoteResponse}
use cqupt_block_storage.Raft.Core.State.{RaftCore, current_term, become_follower_for_remote}
use cqupt_block_storage.Raft.Core.Election.{
  decide_vote, answer_vote, send_vote, handle_request_vote,
}
use cqupt_block_storage.Raft.Core.Safety.Runs.{Event, history, AllFit, history-Follows}

-- What a granted vote says of the states around the call.
pub record Grants (q : RequestVoteRequest) (c d : RaftCore) (term : ℕ) : Type 0 where
  pub same_term : current_term d ≡ term
  pub vote : d.hard_state.voted_for ≡ q.candidate_id
  pub term_grows : current_term c ≤ term
  pub was_free :
      current_term c ≡ term → c.hard_state.voted_for ≢ 0 → c.hard_state.voted_for ≡ q.candidate_id
  pub no_learner : c.role ≢ RaftRole.learner

decide_vote-Grants :
    (q : RequestVoteRequest) (c : RaftCore) (r : RequestVoteResponse)
    → c.role ≢ RaftRole.learner
    → (decide_vote q c).0 ≡ ok r
    → r.vote_granted ≡ true
    → Grants q c (decide_vote q c).1 r.term
unfolding decide_vote
decide_vote-Grants q c r n h g = record {
  same_term = ground arith;
  vote = ground arith;
  term_grows = ground arith;
  was_free = ground arith;
  no_learner = n;
}

pub answer_vote-Grants :
    (q : RequestVoteRequest) (c : RaftCore) (r : RequestVoteResponse)
    → (answer_vote q c).0 ≡ ok r
    → r.vote_granted ≡ true
    → Grants q c (answer_vote q c).1 r.term
unfolding answer_vote decide_vote become_follower_for_remote
answer_vote-Grants q c r h g = record {
  same_term = ground arith;
  vote = ground arith;
  term_grows = ground arith;
  was_free = ground arith;
  no_learner = ground arith;
}

send_vote-hard_state :
    (q : RequestVoteRequest) (h : HardState) (r : RequestVoteResponse) (c : RaftCore)
    → (send_vote q h r c).hard_state ≡ c.hard_state
unfolding send_vote
send_vote-hard_state q h r c = ground arith

-- Sending the answer leaves the vote as it is.
sent-Grants :
    (q : RequestVoteRequest) (c d e : RaftCore) (t : ℕ)
    → e.hard_state ≡ d.hard_state
    → Grants q c d t
    → Grants q c e t
sent-Grants q c d e t h g = record {
  same_term = rw h g.same_term;
  vote = rw h g.vote;
  term_grows = g.term_grows;
  was_free = g.was_free;
  no_learner = g.no_learner;
}

pub handle_request_vote-Grants :
    (q : RequestVoteRequest) (c : RaftCore) (r : RequestVoteResponse)
    → (handle_request_vote q c).0 ≡ ok r
    → r.vote_granted ≡ true
    → Grants q c (handle_request_vote q c).1 r.term
unfolding handle_request_vote
handle_request_vote-Grants q c r h g =
    sent-Grants q c (answer_vote q c).1 _ r.term
      (ground (arith, send_vote-hard_state q c.hard_state r (answer_vote q c).1))
      (answer_vote-Grants q c r (ground arith) g)

pub candidate_known :
    (q : RequestVoteRequest) (c : RaftCore) (r : RequestVoteResponse)
    → (handle_request_vote q c).0 ≡ ok r
    → q.candidate_id ≢ 0
unfolding handle_request_vote
candidate_known q c r h = ground arith

-- Where `HandleRequestVote` grants a vote and leaves a log that satisfies the invariant, then any
-- calls that fit their states are made (as for `history-Follows`), and then `HandleRequestVote`
-- grants a vote in the same term, both votes are for the same candidate.
pub one_vote_in_a_term :
    (q1 q2 : RequestVoteRequest) (r1 r2 : RequestVoteResponse) (c : RaftCore) (es : List Event)
    → let d = (handle_request_vote q1 c).1 in
      IsValid d.log
      → AllFit es d
      → (handle_request_vote q1 c).0 ≡ ok r1
      → r1.vote_granted ≡ true
      → (handle_request_vote q2 (history es d)).0 ≡ ok r2
      → r2.vote_granted ≡ true
      → r2.term ≡ r1.term
      → q2.candidate_id ≡ q1.candidate_id
one_vote_in_a_term q1 q2 r1 r2 c es v fit h1 g1 h2 g2 same =
    let d = (handle_request_vote q1 c).1 in
    let a = handle_request_vote-Grants q1 c r1 h1 g1 in
    let b = handle_request_vote-Grants q2 (history es d) r2 h2 g2 in
    let f = history-Follows es d v fit in
    let term : current_term (history es d) ≡ current_term d =
      omega (arith, a.same_term, b.term_grows, f.term_grows, same) in
    let voted : d.hard_state.voted_for ≢ 0 = λ e. candidate_known q1 c r1 h1 (sym a.vote ∙ e) in
    let kept = f.vote_kept term voted b.no_learner in
    sym (b.was_free (term ∙ a.same_term ∙ sym same) λ e. voted (sym kept ∙ e)) ∙ kept ∙ a.vote
