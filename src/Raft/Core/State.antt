-- ===== src/Raft/Core/State.antt =====
-- The fields of `RaftCore`, its accessors, and the parts that many methods share.
use cqupt_block_storage.Base.{
  ℕ, List, [], ◌∷◌, Bool, true, false, not, ◌&&◌, ◌||◌, ltb, ◌==◌, if◌then◌else◌, map,
}
use cqupt_block_storage.Common.Status.{Result, ok, err, ⊤, reject_if, invalid_argument}
use cqupt_block_storage.Common.Action.{Action, check, modify, ◌>>◌}
use cqupt_block_storage.Raft.Log.{RaftLog}
use cqupt_block_storage.Raft.Membership.{MembershipState}
use cqupt_block_storage.Raft.Messages.{RaftMessage}
use cqupt_block_storage.Raft.Types.{HardState, RaftRole, RaftMember, PeerProgress, invalid_node_id}

pub record PendingMessage : Type 0 where
  pub message : RaftMessage
  pub require_hard_state : Bool
  pub required_stable_index : ℕ

-- `peer_progress_`, the `std::map` from node ids, is a list of pairs in which an id stands once.
abbrev pub ProgressMap : Type 0
ProgressMap = List (ℕ × PeerProgress)

pub record RaftCore : Type 0 where
  pub node_id : ℕ
  pub role : RaftRole
  pub leader_id : ℕ
  pub logical_ticks : ℕ
  pub election_elapsed_ticks : ℕ
  pub election_timeout_ticks : ℕ
  pub hard_state : HardState
  pub log : RaftLog
  pub voter_ids : List ℕ
  pub learner_ids : List ℕ
  pub membership_state : MembershipState
  pub peer_progress : ProgressMap
  pub persisted_hard_state : HardState
  pub immediate_messages : List RaftMessage
  pub persisted_messages : List PendingMessage
  pub initialized : Bool

pub data TickAction : Type 0 where
  none start_election : TickAction

-- `current_term()`
abbrev pub current_term : RaftCore → ℕ
current_term c = c.hard_state.current_term

abbrev pub role_eq : RaftRole → RaftRole → Bool
role_eq RaftRole.follower RaftRole.follower = true
role_eq RaftRole.candidate RaftRole.candidate = true
role_eq RaftRole.leader RaftRole.leader = true
role_eq RaftRole.learner RaftRole.learner = true
role_eq _ _ = false

-- a call of a method of `log_`
abbrev pub on_log {ℓ} :
    {A : Type ℓ} → (RaftLog → Result A × RaftLog) → RaftCore → Result A × RaftCore
on_log f c = let (r, l) = f c.log in (r, record c { log = l })

-- the test with which every method begins; output pointers are never null here
abbrev pub require_initialized : RaftCore → Result ⊤
require_initialized c = reject_if (not c.initialized) invalid_argument

unfoldable pub contains_node : List ℕ → ℕ → Bool
contains_node [] id = false
contains_node (n ∷ ns) id = n == id || contains_node ns id

-- `std::sort` on node ids
insert_id : ℕ → List ℕ → List ℕ
insert_id n [] = n ∷ []
insert_id n (m ∷ ms) = let rest = insert_id n ms in if ltb m n then m ∷ rest else n ∷ m ∷ ms

unfoldable pub sorted_node_ids : List ℕ → List ℕ
unfolding insert_id
sorted_node_ids [] = []
sorted_node_ids (n ∷ ns) = insert_id n (sorted_node_ids ns)

unfoldable pub member_ids : List RaftMember → List ℕ
unfolding sorted_node_ids
member_ids ms = sorted_node_ids (map (λ m. m.node_id) ms)

abbrev pub same_hard_state : HardState → HardState → Bool
same_hard_state a b =
    a.current_term == b.current_term
    && (a.voted_for == b.voted_for
        && (a.commit_index == b.commit_index
            && a.membership_configuration_id == b.membership_configuration_id))

-- `HasDirtyHardState`, and `HardStateChanged`
abbrev pub has_dirty_hard_state : RaftCore → Bool
has_dirty_hard_state c = not (same_hard_state c.hard_state c.persisted_hard_state)

abbrev pub reset_election_ticks : RaftCore → RaftCore
reset_election_ticks c = record c { election_elapsed_ticks = 0 }

unfoldable pub validate_transition_term : ℕ → RaftCore → Result ⊤
validate_transition_term term c =
    if not c.initialized
    then err invalid_argument
    else if ltb term (current_term c)
    then err invalid_argument
    else ok tt

unfoldable pub update_current_term : ℕ → Action RaftCore ⊤
unfolding validate_transition_term
update_current_term term = do
  check (validate_transition_term term)
  modify λ c.
      if ltb (current_term c) term
      then record c {
        hard_state = record (c.hard_state) { current_term = term; voted_for = invalid_node_id };
      }
      else c

unfoldable pub become_follower_for_remote : ℕ → ℕ → Action RaftCore ⊤
unfolding update_current_term
become_follower_for_remote term leader_id = do
  update_current_term term
  modify λ c. if role_eq c.role RaftRole.learner then c else record c { role = RaftRole.follower }
  modify λ c. reset_election_ticks (record c { leader_id = leader_id })
