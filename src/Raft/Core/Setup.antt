-- ===== src/Raft/Core/Setup.antt =====
-- `Initialize`, and how the members' ids follow the membership.
use cqupt_block_storage.Base.{
  ℕ, List, [], ◌∷◌, ◌++◌, true, false, not, ◌&&◌, Option, none, some, ◌==◌, if◌then◌else◌, is_empty,
  list_eq,
}
use cqupt_block_storage.Common.Status
use cqupt_block_storage.Common.Status.{Result, ok, err, ⊤, reject_if, invalid_argument}
use cqupt_block_storage.Common.Action.{Action, check, modify, ◌>>◌}
use cqupt_block_storage.Raft.Log.{empty_log}
use cqupt_block_storage.Raft.Membership.{MembershipState, no_membership, from_view, has_no_members}
use cqupt_block_storage.Raft.Types.{HardState, MembershipView, RaftRole, invalid_node_id}
use cqupt_block_storage.Raft.Core.State.{
  RaftCore, contains_node, sorted_node_ids, member_ids, role_eq,
}
use cqupt_block_storage.Raft.Core.Progress.{reset_peer_progress}

pub record Options : Type 0 where
  pub node_id : ℕ
  pub initial_role : RaftRole
  pub election_timeout_ticks : ℕ
  pub hard_state : HardState
  pub voter_ids : List ℕ
  pub learner_ids : List ℕ
  pub membership : Option MembershipView

-- the two loops of `ValidateOptions` over the ids, with the set `seen`
validate_ids : List ℕ → List ℕ → Result (List ℕ)
unfolding contains_node
validate_ids seen [] = ok seen
validate_ids seen (id ∷ ids) =
    if id == invalid_node_id
    then err invalid_argument
    else if contains_node seen id
    then err invalid_argument
    else validate_ids (id ∷ seen) ids

validate_membership : Options → Result ⊤
unfolding from_view sorted_node_ids member_ids list_eq
validate_membership o = elim o.membership [
  | none ↦ ok tt
  | some view ↦ Status.◌>>=◌ (from_view view) λ m.
      if not (list_eq (sorted_node_ids o.voter_ids) (member_ids m.voters))
      then err invalid_argument
      else if not (list_eq (sorted_node_ids o.learner_ids) (member_ids m.learners))
      then err invalid_argument
      else ok tt
]

validate_roles : Options → Result ⊤
unfolding contains_node
validate_roles o =
    let is_voter = contains_node o.voter_ids o.node_id in
    let is_learner = contains_node o.learner_ids o.node_id in
    if not is_voter && not is_learner
    then err invalid_argument
    else if is_learner && not (role_eq o.initial_role RaftRole.learner)
    then err invalid_argument
    else if is_voter && role_eq o.initial_role RaftRole.learner
    then err invalid_argument
    else if role_eq o.initial_role RaftRole.leader && not is_voter
    then err invalid_argument
    else if role_eq o.initial_role RaftRole.learner && o.hard_state.voted_for == o.node_id
    then err invalid_argument
    else ok tt

unfoldable pub validate_options : Options → Result ⊤
unfolding validate_ids validate_roles validate_membership
validate_options o =
    if o.node_id == invalid_node_id
    then err invalid_argument
    else if o.election_timeout_ticks == 0
    then err invalid_argument
    else if is_empty o.voter_ids
    then err invalid_argument
    else Status.◌>>=◌ (validate_ids [] o.voter_ids) λ seen.
      Status.◌>>=◌ (validate_ids seen o.learner_ids)
        λ all. Status.◌>>◌ (validate_roles o) (validate_membership o)

-- `push_back` of the ids that are not there yet
unfoldable pub push_missing : List ℕ → List ℕ → List ℕ
unfolding contains_node
push_missing ids [] = ids
push_missing ids (n ∷ ns) = push_missing (if contains_node ids n then ids else ids ++ n ∷ []) ns

unfoldable pub remove_id : ℕ → List ℕ → List ℕ
remove_id n [] = []
remove_id n (m ∷ ms) = if m == n then remove_id n ms else m ∷ remove_id n ms

unfoldable pub remove_ids : List ℕ → List ℕ → List ℕ
unfolding remove_id
remove_ids [] ids = ids
remove_ids (n ∷ ns) ids = remove_ids ns (remove_id n ids)

unfoldable pub transition_voter_ids : MembershipState → List ℕ
unfolding member_ids push_missing sorted_node_ids
transition_voter_ids m =
    let voters = member_ids m.voters in
    if not m.has_active_transition
    then voters
    else sorted_node_ids (push_missing voters (member_ids m.next_voters))

unfoldable pub transition_learner_ids : MembershipState → List ℕ
unfolding member_ids push_missing remove_ids sorted_node_ids
transition_learner_ids m =
    let learners = member_ids m.learners in
    if not m.has_active_transition
    then learners
    else sorted_node_ids
        (push_missing (remove_ids (member_ids m.next_voters) learners) (member_ids m.next_learners))

unfoldable pub sync_membership_vectors_from_state : RaftCore → RaftCore
unfolding has_no_members transition_voter_ids transition_learner_ids
sync_membership_vectors_from_state c = if has_no_members c.membership_state then c else record c {
  voter_ids = transition_voter_ids c.membership_state;
  learner_ids = transition_learner_ids c.membership_state;
}

unfoldable pub initialize_membership_state : Options → Action RaftCore ⊤
unfolding from_view sync_membership_vectors_from_state
initialize_membership_state o c =
    let cleared = record c { membership_state = no_membership } in
    elim o.membership [
      | none ↦ (ok tt, cleared)
      | some view ↦ elim (from_view view) [
        | err e ↦ (err e, cleared)
        | ok m ↦ (
          ok tt,
          sync_membership_vectors_from_state (record cleared {
            membership_state = m;
            hard_state = record (c.hard_state) { membership_configuration_id = m.configuration_id };
          }),
        )
      ]
    ]

-- the assignments of `Initialize` before the membership is read
abbrev assigned : Options → RaftCore → RaftCore
assigned o c = record {
  node_id = o.node_id;
  role = o.initial_role;
  leader_id = if role_eq o.initial_role RaftRole.leader then o.node_id else invalid_node_id;
  logical_ticks = 0;
  election_elapsed_ticks = 0;
  election_timeout_ticks = o.election_timeout_ticks;
  hard_state = record (o.hard_state) { commit_index = empty_log.commit_index };
  log = empty_log;
  voter_ids = o.voter_ids;
  learner_ids = o.learner_ids;
  membership_state = no_membership;
  peer_progress = c.peer_progress;
  persisted_hard_state = c.persisted_hard_state;
  immediate_messages = [];
  persisted_messages = [];
  initialized = true;
}

unfoldable pub initialize : Options → Action RaftCore ⊤
unfolding validate_options initialize_membership_state reset_peer_progress
initialize o = do
  check λ c. validate_options o
  modify (assigned o)
  λ c.
      (let (r, c') = initialize_membership_state o c in
        elim r [ ok done ↦ (ok tt, c') | err e ↦ (err e, record c' { initialized = false }) ])
  modify λ c. record c { persisted_hard_state = c.hard_state }
  modify reset_peer_progress
