-- ===== src/Raft/Core/Safety.antt =====
-- What no call of a method of an initialised `RaftCore` may undo, however the calls are ordered.
pub mod Methods
pub mod Elections
pub mod Appends
pub mod Others
pub mod Runs
pub mod Votes
pub mod Merged
pub mod Entries
pub mod Commits
pub mod Quorums
pub mod Searches
pub mod Queues
pub mod Persistence
use cqupt_block_storage.Base.{
  ℕ, ◌≤◌, ◌≡◌, ◌≢◌, refl, sym, ◌∙◌, subst, Bool, true, false, inl, inr, Bool-cases, if◌then◌else◌,
  arith,
}
use cqupt_block_storage.Common.Status.{Result, ok, err, ⊤, StatusCode}
use cqupt_block_storage.Common.Action.{Action, ◌>>=◌, ◌>>◌, check, modify, pure, refuse_if}
use cqupt_block_storage.Raft.Types.{RaftRole, HardState}
use cqupt_block_storage.Raft.Log.{RaftLog}
use cqupt_block_storage.Raft.Log.Invariant.{IsValid}
use cqupt_block_storage.Raft.Log.History.{Keeps, Keeps-refl, Keeps-trans}
use cqupt_block_storage.Raft.Core.State.{RaftCore, current_term, on_log}

-- The log keeps its invariant and its committed entries, the term never falls, and a node that may
-- vote keeps the vote that it has cast in the term.
pub record Follows (c d : RaftCore) : Type 0 where
  pub log_kept : Keeps c.log d.log
  pub node_same : d.node_id ≡ c.node_id
  pub term_grows : current_term c ≤ current_term d
  pub vote_kept :
      current_term d ≡ current_term c
      → c.hard_state.voted_for ≢ 0
      → d.role ≢ RaftRole.learner
      → d.hard_state.voted_for ≡ c.hard_state.voted_for

-- What the proof of the votes needs besides: these calls never take a learner out of its role.
record Tracks (c d : RaftCore) : Type 0 where
  follows : Follows c d
  learner_stays : c.role ≡ RaftRole.learner → d.role ≡ RaftRole.learner

Tracks-trans : (c d e : RaftCore) → Tracks c d → Tracks d e → Tracks c e
Tracks-trans c d e f g =
    let first = f.follows in
    let second = g.follows in
    record {
      follows = record {
        log_kept = Keeps-trans c.log d.log e.log first.log_kept second.log_kept;
        node_same = second.node_same ∙ first.node_same;
        term_grows = omega (arith, first.term_grows, second.term_grows);
        vote_kept = λ same voted free.
            let between : current_term d ≡ current_term c =
              omega (arith, first.term_grows, second.term_grows) in
            let vote = first.vote_kept between voted (λ h. free (g.learner_stays h)) in
            second.vote_kept (same ∙ sym between) (λ h. voted (sym vote ∙ h)) free ∙ vote;
      };
      learner_stays = λ h. g.learner_stays (f.learner_stays h);
    }

-- One call, from any state whose log satisfies the invariant.
pub Leads : RaftCore → RaftCore → Type 0
Leads c d = IsValid c.log → Tracks c d

pub Leads-Follows : (c d : RaftCore) → IsValid c.log → Leads c d → Follows c d
unfolding Leads
Leads-Follows c d v f = (f v).follows

pub Leads-trans : (c d e : RaftCore) → Leads c d → Leads d e → Leads c e
unfolding Leads
Leads-trans c d e f g v = Tracks-trans c d e (f v) (g (f v).follows.log_kept.valid)

-- A change of the log that keeps it, and of no field that elections look at.
pub Leads-log :
    (c d : RaftCore)
    → (IsValid c.log → Keeps c.log d.log)
    → d.node_id ≡ c.node_id
    → current_term d ≡ current_term c
    → d.hard_state.voted_for ≡ c.hard_state.voted_for
    → d.role ≡ c.role
    → Leads c d
unfolding Leads
Leads-log c d log node term vote role v = record {
  follows = record {
    log_kept = log v;
    node_same = node;
    term_grows = omega arith;
    vote_kept = λ _ _ _. vote;
  };
  learner_stays = λ h. role ∙ h;
}

-- A change of neither.
pub Leads-frame :
    (c d : RaftCore)
    → d.log ≡ c.log
    → d.node_id ≡ c.node_id
    → current_term d ≡ current_term c
    → d.hard_state.voted_for ≡ c.hard_state.voted_for
    → d.role ≡ c.role
    → Leads c d
Leads-frame c d log = Leads-log c d (λ v. subst (Keeps c.log) (sym log) (Keeps-refl c.log v))

pub Leads-refl : (c : RaftCore) → Leads c c
Leads-refl c = Leads-frame c c refl refl refl refl refl

-- A change of the term, the vote and the role.
pub Leads-vote :
    (c d : RaftCore)
    → d.log ≡ c.log
    → d.node_id ≡ c.node_id
    → current_term c ≤ current_term d
    → (c.role ≡ RaftRole.learner → d.role ≡ RaftRole.learner)
    → (current_term d ≡ current_term c
        → c.hard_state.voted_for ≢ 0
        → d.role ≢ RaftRole.learner
        → d.hard_state.voted_for ≡ c.hard_state.voted_for)
    → Leads c d
unfolding Leads
Leads-vote c d log node term role vote v = record {
  follows = record {
    log_kept = subst (Keeps c.log) (sym log) (Keeps-refl c.log v);
    node_same = node;
    term_grows = term;
    vote_kept = vote;
  };
  learner_stays = role;
}

-- Actions all of whose calls are such.
pub IsSafe : {A : Type 0} → Action RaftCore A → Type 0
IsSafe m = (c : RaftCore) → Leads c (m c).1

module _ {A B : Type 0} where
  pub IsSafe-bind :
      (m : Action RaftCore A) (f : A → Action RaftCore B)
      → IsSafe m
      → ((a : A) → IsSafe (f a))
      → IsSafe (m >>= f)
  unfolding IsSafe
  IsSafe-bind m f p q c = go (m c) (p c)
    where
      go : (o : Result A × RaftCore) → Leads c o.1 → Leads c (◌>>=◌ {A = A} {B = B} (λ _. o) f c).1
      go (ok a, d) h = Leads-trans c d (f a d).1 h (q a d)
      go (err e, d) h = h

module _ {B : Type 0} where
  pub IsSafe-then :
      (m : Action RaftCore ⊤) (k : Action RaftCore B) → IsSafe m → IsSafe k → IsSafe (m >> k)
  IsSafe-then m k p q = IsSafe-bind m (λ _. k) p (λ _. q)

module _ {A : Type 0} where
  pub IsSafe-check : (f : RaftCore → Result A) → IsSafe (check f)
  unfolding IsSafe
  IsSafe-check f c = Leads-refl c

  pub IsSafe-pure : (a : A) → IsSafe {A = A} (pure a)
  unfolding IsSafe
  IsSafe-pure a c = Leads-refl c

  pub IsSafe-if :
      (b : RaftCore → Bool) (m k : Action RaftCore A)
      → IsSafe m
      → IsSafe k
      → IsSafe (λ c. if b c then m c else k c)
  unfolding IsSafe
  IsSafe-if b m k p q c = elim (Bool-cases (b c)) [ inl e ↦ rw e (p c) | inr e ↦ rw e (q c) ]

  pub IsSafe-either :
      (b : Bool) (m k : Action RaftCore A) → IsSafe m → IsSafe k → IsSafe (if b then m else k)
  IsSafe-either true m k p q = p
  IsSafe-either false m k p q = q

  -- The two branches of one test, with the test known.
  pub Leads-if :
      (c : RaftCore) (b : Bool) (x y : Result A × RaftCore)
      → (b ≡ true → Leads c x.1)
      → (b ≡ false → Leads c y.1)
      → Leads c (if b then x else y).1
  Leads-if c true x y p q = p refl
  Leads-if c false x y p q = q refl

  -- A result that is computed beside a change of the state.
  pub IsSafe-update :
      (g : RaftCore → Result A) (f : RaftCore → RaftCore)
      → ((c : RaftCore) → Leads c (f c))
      → IsSafe (λ c. (g c, f c))
  unfolding IsSafe
  IsSafe-update g f h c = h c

  -- A call on the log that keeps it.
  pub IsSafe-on_log :
      (f : Action RaftLog A) → ((l : RaftLog) → IsValid l → Keeps l (f l).1) → IsSafe (on_log f)
  unfolding IsSafe
  IsSafe-on_log f h c = Leads-log c (on_log f c).1 (h c.log) refl refl refl refl

pub IsSafe-refuse_if : (b : RaftCore → Bool) (e : StatusCode) → IsSafe (refuse_if b e)
unfolding IsSafe
IsSafe-refuse_if b e c = Leads-refl c

pub IsSafe-modify : (f : RaftCore → RaftCore) → ((c : RaftCore) → Leads c (f c)) → IsSafe (modify f)
unfolding IsSafe
IsSafe-modify f h c = h c

pub ruleset safe_steps = (
  IsSafe-bind, IsSafe-then, IsSafe-check, IsSafe-pure, IsSafe-if, IsSafe-refuse_if, IsSafe-modify,
  IsSafe-on_log,
)
