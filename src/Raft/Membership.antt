-- ===== src/Raft/Membership.antt =====
-- Voters, learners and transitions between configurations (raft/raft_membership.h and .cpp).
pub mod Changes
pub mod Codec
use cqupt_block_storage.Base.{
  ℕ, List, [], ◌∷◌, Bool, true, false, not, ◌&&◌, ◌||◌, Option, none, some, ltb, ◌==◌,
  if◌then◌else◌, is_empty, list_eq, list_less,
}
use cqupt_block_storage.Common.Status.{
  Result, ok, err, ⊤, ◌>>=◌, ◌>>◌, reject_if, StatusCode, invalid_argument, busy,
}
use cqupt_block_storage.Raft.Types.{
  NodeAddress, RaftMember, MembershipView, HardState, SnapshotMetadata, invalid_node_id,
}

pub record MembershipLogEntry : Type 0 where
  pub configuration_id : ℕ
  pub voters : List RaftMember
  pub learners : List RaftMember
  pub has_active_transition : Bool
  pub next_voters : List RaftMember
  pub next_learners : List RaftMember

pub record MembershipState : Type 0 where
  pub voters : List RaftMember
  pub learners : List RaftMember
  pub next_voters : List RaftMember
  pub next_learners : List RaftMember
  pub has_active_transition : Bool
  pub configuration_id : ℕ

-- `MembershipState()`
abbrev pub no_membership : MembershipState
no_membership = record {
  voters = [];
  learners = [];
  next_voters = [];
  next_learners = [];
  has_active_transition = false;
  configuration_id = 0;
}

-- The `operator==` of `std::string` is `list_eq`, its `operator<` is `list_less`.
unfoldable pub member_less : RaftMember → RaftMember → Bool
unfolding list_eq list_less
member_less a b =
    if not (a.node_id == b.node_id)
    then ltb a.node_id b.node_id
    else if not (list_eq a.address.host b.address.host)
    then list_less a.address.host b.address.host
    else ltb a.address.port b.address.port

unfoldable pub same_address : NodeAddress → NodeAddress → Bool
unfolding list_eq
same_address a b = list_eq a.host b.host && a.port == b.port

unfoldable pub member_equal : RaftMember → RaftMember → Bool
unfolding list_eq
member_equal a b =
    a.node_id == b.node_id
    && (list_eq a.address.host b.address.host && a.address.port == b.address.port)

unfoldable pub validate_address : NodeAddress → Result ⊤
validate_address a =
    if is_empty a.host
    then err invalid_argument
    else if a.port == 0
    then err invalid_argument
    else ok tt

-- `std::sort` with `MemberLess`
unfoldable pub insert_member : RaftMember → List RaftMember → List RaftMember
unfolding member_less
insert_member m [] = m ∷ []
insert_member m (x ∷ xs) =
    let rest = insert_member m xs in if member_less x m then x ∷ rest else m ∷ x ∷ xs

unfoldable pub normalize_members : List RaftMember → List RaftMember
unfolding insert_member
normalize_members [] = []
normalize_members (m ∷ ms) = insert_member m (normalize_members ms)

-- the loop of `ValidateMembers`, with the id of the member before
validate_sorted : Option ℕ → List RaftMember → Result ⊤
unfolding validate_address
validate_sorted before [] = ok tt
validate_sorted before (m ∷ ms) = do
  reject_if (m.node_id == invalid_node_id) invalid_argument
  reject_if (elim before [ none ↦ false | some b ↦ b == m.node_id ]) invalid_argument
  validate_address m.address
  validate_sorted (some m.node_id) ms

unfoldable pub validate_members : List RaftMember → Result ⊤
unfolding validate_sorted normalize_members
validate_members ms = validate_sorted none (normalize_members ms)

-- the two `while` loops of `ValidateMembershipView`: do two sorted lists have an id in common?
unfoldable pub share_id : List RaftMember → List RaftMember → Bool
share_id [] bs = false
share_id (a ∷ as') [] = false
share_id (a ∷ as') (b ∷ bs) = elim (a.node_id == b.node_id) [
  | true ↦ true
  | false ↦ elim (ltb a.node_id b.node_id) [
    | true ↦ share_id as' (b ∷ bs)
    | false ↦ share_id (a ∷ as') bs
  ]
]

-- the part of `ValidateMembershipView` that follows the first `while` loop
validate_transition : MembershipView → Result ⊤
unfolding share_id normalize_members
validate_transition v =
    if not v.has_active_transition
    then (if not (is_empty v.next_voters) || not (is_empty v.next_learners)
        then err invalid_argument
        else ok tt)
    else if is_empty (normalize_members v.next_voters)
    then err invalid_argument
    else if share_id (normalize_members v.next_voters) (normalize_members v.next_learners)
    then err invalid_argument
    else ok tt

unfoldable pub validate_membership_view : MembershipView → Result ⊤
unfolding validate_members validate_transition
validate_membership_view v = do
  reject_if (v.configuration_id == 0) invalid_argument
  reject_if (is_empty v.voters) invalid_argument
  validate_members v.voters
  validate_members v.learners
  validate_members v.next_voters
  validate_members v.next_learners
  reject_if (share_id (normalize_members v.voters) (normalize_members v.learners)) invalid_argument
  validate_transition v

-- the view that `ValidateMembershipLogEntry` fills in
abbrev pub view_of_entry : MembershipLogEntry → MembershipView
view_of_entry e = record {
  voters = e.voters;
  learners = e.learners;
  has_active_transition = e.has_active_transition;
  configuration_id = e.configuration_id;
  next_voters = e.next_voters;
  next_learners = e.next_learners;
}

unfoldable pub validate_membership_log_entry : MembershipLogEntry → Result ⊤
unfolding validate_membership_view
validate_membership_log_entry e = validate_membership_view (view_of_entry e)

unfoldable pub normalize_view : MembershipView → Result MembershipView
unfolding validate_membership_view normalize_members
normalize_view v = do
  validate_membership_view v
  ok (record v { voters = normalize_members v.voters; learners = normalize_members v.learners })

unfoldable pub normalize_log_entry : MembershipLogEntry → Result MembershipLogEntry
unfolding validate_membership_log_entry normalize_members
normalize_log_entry e = do
  validate_membership_log_entry e
  ok (record e { voters = normalize_members e.voters; learners = normalize_members e.learners })

-- `std::equal` on lists of one length, with the test of the lengths
unfoldable pub members_equal : List RaftMember → List RaftMember → Bool
unfolding member_equal
members_equal [] [] = true
members_equal [] (b ∷ bs) = false
members_equal (a ∷ as') [] = false
members_equal (a ∷ as') (b ∷ bs) = member_equal a b && members_equal as' bs

bool_eq : Bool → Bool → Bool
bool_eq true b = b
bool_eq false b = not b

unfoldable pub views_equal : MembershipView → MembershipView → Bool
unfolding members_equal bool_eq
views_equal v w =
    v.configuration_id == w.configuration_id
    && (bool_eq v.has_active_transition w.has_active_transition
        && (members_equal v.voters w.voters
            && (members_equal v.learners w.learners
                && (members_equal v.next_voters w.next_voters
                    && members_equal v.next_learners w.next_learners))))

unfoldable pub from_view : MembershipView → Result MembershipState
unfolding normalize_view
from_view v = do
  n ← normalize_view v
  ok (record {
    voters = n.voters;
    learners = n.learners;
    next_voters = n.next_voters;
    next_learners = n.next_learners;
    has_active_transition = n.has_active_transition;
    configuration_id = n.configuration_id;
  })

-- `MembershipState::empty`
unfoldable pub has_no_members : MembershipState → Bool
has_no_members s =
    s.configuration_id == 0
    && (is_empty s.voters
        && (is_empty s.learners
            && (is_empty s.next_voters
                && (is_empty s.next_learners && not s.has_active_transition))))

-- `std::any_of` with a test of the id
unfoldable pub has_node : ℕ → List RaftMember → Bool
has_node id [] = false
has_node id (m ∷ ms) = m.node_id == id || has_node id ms

unfoldable pub is_voter : MembershipState → ℕ → Bool
unfolding has_node
is_voter s id = has_node id s.voters || (s.has_active_transition && has_node id s.next_voters)

-- the test of `IsLearner` does not depend on the member but for its id
unfoldable pub is_learner : MembershipState → ℕ → Bool
unfolding has_node
is_learner s id =
    has_node id s.learners && (not s.has_active_transition || not (has_node id s.next_voters))

unfoldable pub contains : MembershipState → ℕ → Bool
unfolding is_voter is_learner
contains s id = is_voter s id || is_learner s id

abbrev pub to_view : MembershipState → MembershipView
to_view s = record {
  voters = s.voters;
  learners = s.learners;
  has_active_transition = s.has_active_transition;
  configuration_id = s.configuration_id;
  next_voters = s.next_voters;
  next_learners = s.next_learners;
}

abbrev pub to_log_entry : MembershipState → MembershipLogEntry
to_log_entry s = record {
  configuration_id = s.configuration_id;
  voters = s.voters;
  learners = s.learners;
  has_active_transition = s.has_active_transition;
  next_voters = s.next_voters;
  next_learners = s.next_learners;
}

unfoldable pub bootstrap :
    ℕ → MembershipView → HardState → Option SnapshotMetadata → Result MembershipState
unfolding from_view contains
bootstrap local_node_id view hard_state snapshot = do
  reject_if (local_node_id == invalid_node_id) invalid_argument
  reject_if (elim snapshot [ none ↦ false | some s ↦ true ]) busy
  reject_if (not (hard_state.membership_configuration_id == 0)) busy
  candidate ← from_view view
  reject_if (not (contains candidate local_node_id)) invalid_argument
  ok candidate

-- `ApplyCommitted`, which writes the object only when it returns OK: the new state is the result
unfoldable pub apply_committed : MembershipLogEntry → MembershipState → Result MembershipState
unfolding normalize_log_entry normalize_view views_equal from_view has_no_members
apply_committed entry s = do
  normalized ← normalize_log_entry entry
  let incoming = view_of_entry normalized
  if has_no_members s
      then from_view incoming
      else if ltb normalized.configuration_id s.configuration_id
      then err invalid_argument
      else if normalized.configuration_id == s.configuration_id
      then (normalize_view (to_view s) >>= λ current.
          if not (views_equal current incoming) then err invalid_argument else ok s)
      else from_view incoming
