-- ===== src/Raft/Core/Safety/Elections.antt =====
-- The methods of Election are safe.
use cqupt_block_storage.Base.{ℕ, suc, ◌<◌, arith, u64_mod}
use cqupt_block_storage.Raft.Types.{HardState}
use cqupt_block_storage.Raft.Messages.{
  RaftMessageType, RaftMessagePayload, RequestVoteRequest, RequestVoteResponse,
}
use cqupt_block_storage.Raft.Core.State.{RaftCore, current_term}
use cqupt_block_storage.Raft.Core.Progress.{sync_local_peer_progress}
use cqupt_block_storage.Raft.Core.Election.{
  start_election, tick, update_election_timeout, become_follower, become_leader, decide_vote,
  answer_vote, send_vote, handle_request_vote, handle_request_vote_response,
}
use cqupt_block_storage.Raft.Core.Safety.{Leads, Leads-frame, Leads-vote, IsSafe, safe_steps}
use cqupt_block_storage.Raft.Core.Safety.Methods.{
  stage_message-Leads, become_follower_for_remote-IsSafe,
}

-- The next term must be a word: at the last one the increment would wrap to 0.
pub start_election-Leads :
    (c : RaftCore) → suc (current_term c) < u64_mod → Leads c (start_election c).1
unfolding start_election
start_election-Leads c h =
    Leads-vote c _ (ground arith) (ground arith) (ground arith) (ground arith) (ground arith)

pub tick-Leads : (c : RaftCore) → suc (current_term c) < u64_mod → Leads c (tick c).1
unfolding tick
tick-Leads c h =
    Leads-vote c _ (ground arith) (ground arith) (ground arith) (ground arith) (ground arith)

pub update_election_timeout-IsSafe : (n : ℕ) → IsSafe (update_election_timeout n)
unfolding update_election_timeout IsSafe
update_election_timeout-IsSafe n c =
    Leads-frame c _ (ground arith) (ground arith) (ground arith) (ground arith) (ground arith)

pub become_follower-IsSafe : (t l : ℕ) → IsSafe (become_follower t l)
unfolding become_follower
become_follower-IsSafe t l = search (safe_steps, become_follower_for_remote-IsSafe)

pub become_leader-IsSafe : IsSafe become_leader
unfolding become_leader sync_local_peer_progress IsSafe
become_leader-IsSafe c =
    Leads-vote c _ (ground arith) (ground arith) (ground arith) (ground arith) (ground arith)

decide_vote-IsSafe : (q : RequestVoteRequest) → IsSafe (decide_vote q)
unfolding decide_vote IsSafe
decide_vote-IsSafe q c =
    Leads-vote c _ (ground arith) (ground arith) (ground arith) (ground arith) (ground arith)

answer_vote-IsSafe : (q : RequestVoteRequest) → IsSafe (answer_vote q)
unfolding answer_vote IsSafe
answer_vote-IsSafe q = search (safe_steps, decide_vote-IsSafe, become_follower_for_remote-IsSafe)

send_vote-Leads :
    (q : RequestVoteRequest) (h : HardState) (r : RequestVoteResponse) (c : RaftCore)
    → Leads c (send_vote q h r c)
unfolding send_vote
send_vote-Leads q h r c =
    stage_message-Leads
      (record {
        type = RaftMessageType.request_vote_response;
        source_node_id = c.node_id;
        target_node_id = q.candidate_id;
        payload = RaftMessagePayload.vote_response r;
      })
      _ _ c

pub handle_request_vote-IsSafe : (q : RequestVoteRequest) → IsSafe (handle_request_vote q)
unfolding handle_request_vote
handle_request_vote-IsSafe q = search (safe_steps, answer_vote-IsSafe, send_vote-Leads) depth 12

pub handle_request_vote_response-IsSafe :
    (s : ℕ) (r : RequestVoteResponse) → IsSafe (handle_request_vote_response s r)
unfolding handle_request_vote_response IsSafe
handle_request_vote_response-IsSafe s r = search (safe_steps, become_follower_for_remote-IsSafe)
