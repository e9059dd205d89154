-- ===== src/Raft/Core/Election.antt =====
-- Ticks, roles, terms and votes.
use cqupt_block_storage.Base.{
  ℕ, Bool, true, false, not, ◌&&◌, ◌||◌, ltb, leb, ◌==◌, if◌then◌else◌, inc_u64,
}
use cqupt_block_storage.Common.Status.{Result, ok, err, ⊤, invalid_argument}
use cqupt_block_storage.Common.Action.{Action, pure, check, modify, refuse_if, ◌>>=◌, ◌>>◌}
use cqupt_block_storage.Raft.Log.{last_index, get_term}
use cqupt_block_storage.Raft.Messages.{
  VoteRejectReason, RequestVoteRequest, RequestVoteResponse, RaftMessageType, RaftMessagePayload,
}
use cqupt_block_storage.Raft.Types.{RaftRole, HardState, invalid_node_id, invalid_log_index}
use cqupt_block_storage.Raft.Core.State.{
  RaftCore, TickAction, current_term, role_eq, require_initialized, same_hard_state,
  reset_election_ticks, validate_transition_term, become_follower_for_remote,
}
use cqupt_block_storage.Raft.Core.Progress.{reset_peer_progress}
use cqupt_block_storage.Raft.Core.Outbox.{stage_message}

pub data VoteResponseAction : Type 0 where
  none recorded_grant recorded_rejection stepped_down : VoteResponseAction

unfoldable pub start_election : Action RaftCore ⊤
start_election = do
  check require_initialized
  refuse_if (λ c. role_eq c.role RaftRole.leader) invalid_argument
  refuse_if (λ c. role_eq c.role RaftRole.learner) invalid_argument
  modify λ c. record c {
    hard_state = record (c.hard_state) {
      current_term = inc_u64 (current_term c);
      voted_for = c.node_id;
    };
    role = RaftRole.candidate;
    leader_id = invalid_node_id;
    election_elapsed_ticks = 0;
  }

unfoldable pub tick : Action RaftCore TickAction
unfolding start_election
tick = do
  check require_initialized
  modify λ c. record c { logical_ticks = inc_u64 c.logical_ticks }
  λ c.
      if role_eq c.role RaftRole.leader || role_eq c.role RaftRole.learner
      then (ok TickAction.none, c)
      else let c' = record c { election_elapsed_ticks = inc_u64 c.election_elapsed_ticks } in
        if ltb c'.election_elapsed_ticks c'.election_timeout_ticks
        then (ok TickAction.none, c')
        else (start_election >> pure TickAction.start_election) c'

unfoldable pub update_election_timeout : ℕ → Action RaftCore ⊤
update_election_timeout ticks = do
  refuse_if (λ c. ticks == 0) invalid_argument
  modify λ c. record c { election_timeout_ticks = ticks }

unfoldable pub become_follower : ℕ → ℕ → Action RaftCore ⊤
unfolding validate_transition_term become_follower_for_remote
become_follower term leader_id = do
  check (validate_transition_term term)
  refuse_if (λ c. role_eq c.role RaftRole.learner) invalid_argument
  become_follower_for_remote term leader_id

unfoldable pub become_leader : Action RaftCore ⊤
unfolding reset_peer_progress
become_leader = do
  check require_initialized
  refuse_if (λ c. role_eq c.role RaftRole.learner) invalid_argument
  refuse_if (λ c. not (role_eq c.role RaftRole.candidate)) invalid_argument
  modify λ c.
      reset_peer_progress
        (reset_election_ticks (record c { role = RaftRole.leader; leader_id = c.node_id }))

-- `GetLastLogTerm` and the comparison of `IsCandidateLogUpToDate`
unfoldable pub is_candidate_log_up_to_date : RaftCore → ℕ → ℕ → Bool
unfolding get_term last_index
is_candidate_log_up_to_date c last_log_index last_log_term =
    elim (get_term c.log (last_index c.log)) [
      | err e ↦ false
      | ok local_last_term ↦
          if not (last_log_term == local_last_term)
          then ltb local_last_term last_log_term
          else leb (last_index c.log) last_log_index
    ]

-- the response that refuses, in the term of the moment
abbrev refusal : RaftCore → VoteRejectReason → RequestVoteResponse
refusal c reason = record { term = current_term c; vote_granted = false; reject_reason = reason }

-- the last `else` of `HandleRequestVote`, once the term of the request is the current one
unfoldable pub decide_vote : RequestVoteRequest → Action RaftCore RequestVoteResponse
unfolding is_candidate_log_up_to_date
decide_vote q c =
    if not (is_candidate_log_up_to_date c q.last_log_index q.last_log_term)
    then (ok (refusal c VoteRejectReason.log_outdated), c)
    else if not (c.hard_state.voted_for == invalid_node_id)
        && not (c.hard_state.voted_for == q.candidate_id)
    then (ok (refusal c VoteRejectReason.already_voted), c)
    else (
      ok (record {
        term = current_term c;
        vote_granted = true;
        reject_reason = VoteRejectReason.none;
      }),
      reset_election_ticks
          (record c { hard_state = record (c.hard_state) { voted_for = q.candidate_id } }),
    )

-- `HandleRequestVote` up to the message
unfoldable pub answer_vote : RequestVoteRequest → Action RaftCore RequestVoteResponse
unfolding become_follower_for_remote decide_vote
answer_vote q c =
    if role_eq c.role RaftRole.learner
    then (ok (refusal c VoteRejectReason.learner), c)
    else if ltb q.term (current_term c)
    then (ok (refusal c VoteRejectReason.stale_term), c)
    else if ltb (current_term c) q.term
    then (become_follower_for_remote q.term invalid_node_id >> decide_vote q) c
    else decide_vote q c

-- the message that carries the answer to the candidate
unfoldable pub send_vote :
    RequestVoteRequest → HardState → RequestVoteResponse → RaftCore → RaftCore
unfolding stage_message
send_vote q before response c =
    stage_message
      (record {
        type = RaftMessageType.request_vote_response;
        source_node_id = c.node_id;
        target_node_id = q.candidate_id;
        payload = RaftMessagePayload.vote_response response;
      })
      (not (same_hard_state before c.hard_state)) invalid_log_index c

unfoldable pub handle_request_vote : RequestVoteRequest → Action RaftCore RequestVoteResponse
unfolding answer_vote send_vote
handle_request_vote q = do
  check require_initialized
  refuse_if (λ c. q.candidate_id == invalid_node_id) invalid_argument
  before ← check λ c. ok c.hard_state
  response ← answer_vote q
  modify (send_vote q before response)
  pure response

has_reason : VoteRejectReason → Bool
has_reason VoteRejectReason.none = false
has_reason _ = true

-- `ValidateRequestVoteResponse`
unfoldable pub validate_request_vote_response : ℕ → RequestVoteResponse → RaftCore → Result ⊤
unfolding has_reason
validate_request_vote_response source r c =
    if not c.initialized
    then err invalid_argument
    else if source == invalid_node_id
    then err invalid_argument
    else if r.vote_granted && has_reason r.reject_reason
    then err invalid_argument
    else if not r.vote_granted && not (has_reason r.reject_reason)
    then err invalid_argument
    else ok tt

unfoldable pub handle_request_vote_response :
    ℕ → RequestVoteResponse → Action RaftCore VoteResponseAction
unfolding validate_request_vote_response become_follower_for_remote
handle_request_vote_response source r = do
  check (validate_request_vote_response source r)
  λ c.
      if ltb r.term (current_term c)
      then (ok VoteResponseAction.none, c)
      else if ltb (current_term c) r.term
      then (become_follower_for_remote r.term invalid_node_id
            >> pure VoteResponseAction.stepped_down)
          c
      else if not (role_eq c.role RaftRole.candidate)
      then (ok VoteResponseAction.none, c)
      else (
        ok (
            if r.vote_granted
            then VoteResponseAction.recorded_grant
            else VoteResponseAction.recorded_rejection),
        c,
      )
