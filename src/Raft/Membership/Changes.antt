-- ===== src/Raft/Membership/Changes.antt =====
-- The entries that a leader proposes to change the membership.
use cqupt_block_storage.Base.{
  ℕ, List, [], ◌∷◌, ◌++◌, Bool, true, false, not, ◌||◌, Option, none, some, ◌==◌, if◌then◌else◌,
  length, inc_u64,
}
use cqupt_block_storage.Common.Status.{Result, err, ⊤, ◌>>◌, reject_if, invalid_argument, busy}
use cqupt_block_storage.Raft.Types.{NodeAddress, RaftMember, invalid_node_id}
use cqupt_block_storage.Raft.Membership.{
  MembershipLogEntry, MembershipState, same_address, validate_address, normalize_log_entry,
  has_no_members, is_voter, is_learner,
}

-- does a member of the list have this address?
any_address : NodeAddress → List RaftMember → Bool
unfolding same_address
any_address a [] = false
any_address a (m ∷ ms) = same_address m.address a || any_address a ms

-- `std::find_if` by id
unfoldable pub find_member : ℕ → List RaftMember → Option RaftMember
find_member id [] = none
find_member id (m ∷ ms) = if m.node_id == id then some m else find_member id ms

-- `erase(std::find_if(…))` by id
unfoldable pub erase_member : ℕ → List RaftMember → List RaftMember
erase_member id [] = []
erase_member id (m ∷ ms) = if m.node_id == id then ms else m ∷ erase_member id ms

-- the checks that the first three builders share
check_stable : MembershipState → Result ⊤
unfolding has_no_members
check_stable s = do
  reject_if (has_no_members s) invalid_argument
  reject_if s.has_active_transition busy

unfoldable pub build_add_learner_log_entry :
    MembershipState → RaftMember → Result MembershipLogEntry
unfolding check_stable validate_address is_voter is_learner any_address normalize_log_entry
build_add_learner_log_entry s learner = do
  check_stable s
  reject_if (learner.node_id == invalid_node_id) invalid_argument
  validate_address learner.address
  reject_if (is_voter s learner.node_id) invalid_argument
  reject_if (is_learner s learner.node_id) invalid_argument
  reject_if (any_address learner.address s.voters) invalid_argument
  reject_if (any_address learner.address s.learners) invalid_argument
  normalize_log_entry (record {
    configuration_id = inc_u64 s.configuration_id;
    voters = s.voters;
    learners = s.learners ++ learner ∷ [];
    has_active_transition = false;
    next_voters = [];
    next_learners = [];
  })

unfoldable pub build_promote_learner_log_entry : MembershipState → ℕ → Result MembershipLogEntry
unfolding check_stable is_voter find_member erase_member normalize_log_entry
build_promote_learner_log_entry s id = do
  check_stable s
  reject_if (id == invalid_node_id) invalid_argument
  reject_if (is_voter s id) invalid_argument
  elim (find_member id s.learners) [
    | none ↦ err invalid_argument
    | some promoted ↦ normalize_log_entry (record {
      configuration_id = inc_u64 s.configuration_id;
      voters = s.voters;
      learners = s.learners;
      has_active_transition = true;
      next_voters = s.voters ++ promoted ∷ [];
      next_learners = erase_member id s.learners;
    })
  ]

unfoldable pub build_remove_member_log_entry : MembershipState → ℕ → Result MembershipLogEntry
unfolding check_stable find_member erase_member normalize_log_entry
build_remove_member_log_entry s id = do
  check_stable s
  reject_if (id == invalid_node_id) invalid_argument
  elim (find_member id s.voters) [
    | some voter ↦
        reject_if (length s.voters == 1) invalid_argument
        >> normalize_log_entry (record {
          configuration_id = inc_u64 s.configuration_id;
          voters = s.voters;
          learners = s.learners;
          has_active_transition = true;
          next_voters = erase_member id s.voters;
          next_learners = s.learners;
        })
    | none ↦ elim (find_member id s.learners) [
      | none ↦ err invalid_argument
      | some learner ↦ normalize_log_entry (record {
        configuration_id = inc_u64 s.configuration_id;
        voters = s.voters;
        learners = erase_member id s.learners;
        has_active_transition = false;
        next_voters = [];
        next_learners = [];
      })
    ]
  ]

unfoldable pub build_finalize_membership_log_entry : MembershipState → Result MembershipLogEntry
unfolding has_no_members normalize_log_entry
build_finalize_membership_log_entry s = do
  reject_if (has_no_members s || not s.has_active_transition) invalid_argument
  normalize_log_entry (record {
    configuration_id = inc_u64 s.configuration_id;
    voters = s.next_voters;
    learners = s.next_learners;
    has_active_transition = false;
    next_voters = [];
    next_learners = [];
  })
