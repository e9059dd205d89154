-- ===== src/Raft/Core/Commit.antt =====
-- Proposals and the commit index: `Propose`, `TryAdvanceCommitIndex` and the quorums.
use cqupt_block_storage.Base.{
  ℕ, zero, suc, ◌+◌, ◌-◌, ◌/◌, List, [], ◌∷◌, Bool, not, ◌&&◌, leb, ◌==◌, if◌then◌else◌, inc_u64,
  length,
}
use cqupt_block_storage.Common.Status
use cqupt_block_storage.Common.Status.{Result, ok, err, ⊤, is_ok, invalid_argument}
use cqupt_block_storage.Common.Action.{Action, pure, check, modify, refuse_if, ◌>>=◌, ◌>>◌}
use cqupt_block_storage.Raft.Log.{last_index, get_term, append, advance_commit_to}
use cqupt_block_storage.Raft.Types.{LogEntry, LogEntryType, RaftRole}
use cqupt_block_storage.Raft.Core.State.{
  RaftCore, current_term, role_eq, require_initialized, on_log, member_ids,
}
use cqupt_block_storage.Raft.Core.Progress.{find_peer_progress, update_peer}

-- the loop over `voter_ids_` in `TryAdvanceCommitIndex`; a voter without progress is an error
unfoldable pub count_matches : RaftCore → ℕ → List ℕ → Result ℕ
unfolding find_peer_progress
count_matches c candidate [] = ok 0
count_matches c candidate (id ∷ ids) = Status.◌>>=◌ (find_peer_progress id c) λ p.
    Status.◌>>=◌ (count_matches c candidate ids)
      λ rest. ok (if leb candidate p.match_index then suc rest else rest)

-- `count_for` in `HasJointQuorumAt`; a voter without progress does not count
unfoldable pub count_for : RaftCore → ℕ → List ℕ → ℕ
unfolding find_peer_progress
count_for c index [] = 0
count_for c index (id ∷ ids) =
    let rest = count_for c index ids in
    elim (find_peer_progress id c) [
      | ok p ↦ if leb index p.match_index then suc rest else rest
      | err e ↦ rest
    ]

abbrev pub majority : List ℕ → ℕ
majority ids = length ids / 2 + 1

unfoldable pub has_joint_quorum_at : RaftCore → ℕ → Bool
unfolding count_for member_ids
has_joint_quorum_at c index =
    let old_voters = member_ids c.membership_state.voters in
    let new_voters = member_ids c.membership_state.next_voters in
    leb (majority old_voters) (count_for c index old_voters)
    && leb (majority new_voters) (count_for c index new_voters)

-- the quorum test in the loop of `TryAdvanceCommitIndex`
unfoldable pub has_quorum_at : RaftCore → ℕ → Result Bool
unfolding has_joint_quorum_at count_matches
has_quorum_at c candidate =
    if c.membership_state.has_active_transition
    then ok (has_joint_quorum_at c candidate)
    else Status.◌>>=◌ (count_matches c candidate c.voter_ids)
        λ matches. ok (leb (majority c.voter_ids) matches)

-- `hard_state_.commit_index = log_.commit_index()`
abbrev pub copy_commit : RaftCore → RaftCore
copy_commit c = record c {
  hard_state = record (c.hard_state) { commit_index = c.log.commit_index };
}

-- the end of a round that has found its candidate
unfoldable pub commit_at : ℕ → Action RaftCore ⊤
unfolding advance_commit_to
commit_at candidate = do on_log (advance_commit_to candidate); modify copy_commit

-- the loop, from `candidate` down to the commit index, on the rounds left
unfoldable pub scan_commit : ℕ → ℕ → Action RaftCore ⊤
unfolding get_term has_quorum_at commit_at
scan_commit zero candidate c = (ok tt, c)
scan_commit (suc rounds) candidate c =
    let rest = scan_commit rounds (candidate - 1) c in
    elim (get_term c.log candidate) [
      | err e ↦ (err e, c)
      | ok candidate_term ↦
          if not (candidate_term == current_term c)
          then rest
          else elim (has_quorum_at c candidate) [
            | err e ↦ (err e, c)
            | ok quorum ↦ if quorum then commit_at candidate c else rest
          ]
    ]

-- `TryAdvanceCommitIndex`: one round for each index above the commit index
unfoldable pub try_advance_commit_index : Action RaftCore ⊤
unfolding scan_commit last_index
try_advance_commit_index c =
    scan_commit (last_index c.log - c.log.commit_index) (last_index c.log) c

-- the entry that the leader makes of a payload
abbrev pub new_entry : LogEntryType → List ℕ → RaftCore → LogEntry
unfolding last_index
new_entry type payload c = record {
  index = inc_u64 (last_index c.log);
  term = current_term c;
  type = type;
  payload = payload;
}

-- the leader's own progress, where it has an entry
abbrev pub record_local : LogEntry → RaftCore → RaftCore
record_local entry c =
    update_peer c.node_id
      (λ p. record p { match_index = entry.index; next_index = inc_u64 entry.index }) c

-- what `Propose` and `AppendMembershipChangeProposal` do with a new entry
unfoldable pub append_entry : LogEntryType → List ℕ → Action RaftCore ℕ
unfolding last_index append try_advance_commit_index
append_entry type payload = do
  entry ← check λ c. ok (new_entry type payload c)
  on_log (append (entry ∷ []))
  modify (record_local entry)
  try_advance_commit_index
  pure entry.index

unfoldable pub propose : List ℕ → Action RaftCore ⊤
unfolding append_entry
propose payload = do
  check require_initialized
  refuse_if (λ c. not (role_eq c.role RaftRole.leader)) invalid_argument
  index ← append_entry LogEntryType.command payload
  pure tt
