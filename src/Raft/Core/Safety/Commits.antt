-- ===== src/Raft/Core/Safety/Commits.antt =====
-- What `TryAdvanceCommitIndex` commits, against a description of it without the loop.
use cqupt_block_storage.Base.{
  ℕ, ◌+◌, zero, suc, ◌-◌, ◌≤◌, ◌<◌, ◌≡◌, ◌⊎◌, inl, inr, refl, Bool, true, false, not, ◌==◌,
  if◌then◌else◌, arith,
}
use cqupt_block_storage.Common.Status.{Result, ok, err, ⊤}
use cqupt_block_storage.Raft.Log.{get_term}
use cqupt_block_storage.Raft.Log.Invariant.{IsValid, last, last_index-IsValid}
use cqupt_block_storage.Raft.Log.Updates.{advance_commit_to-Advances}
use cqupt_block_storage.Raft.Core.State.{RaftCore, current_term}
use cqupt_block_storage.Raft.Core.Commit.{
  has_quorum_at, commit_at, scan_commit, try_advance_commit_index,
}

-- An index that the leader may commit: its entry is of the current term and a quorum has it.
abbrev pub MayCommit : RaftCore → ℕ → Type 0
MayCommit c i = (get_term c.log i ≡ ok (current_term c)) × (has_quorum_at c i ≡ ok true)

abbrev pub committed : RaftCore → ℕ → RaftCore
committed c i = record c {
  log = record (c.log) { commit_index = i };
  hard_state = record (c.hard_state) { commit_index = i };
}

abbrev NoneAbove : RaftCore → ℕ → ℕ → Type 0
NoneAbove c k i = (j : ℕ) → k < j → j ≤ i → ¬ MayCommit c j

-- How the search from `i` down to the commit index may end: at the highest index that the leader
-- may commit, or without one and nothing changed, or at a voter whose progress is not known.
abbrev pub Commits : RaftCore → ℕ → Result ⊤ × RaftCore → Type 0
Commits c i (ok _, d) =
    ((d ≡ c) × NoneAbove c c.log.commit_index i)
    ⊎ ((k : ℕ) × (c.log.commit_index < k)
        × (k ≤ i)
        × MayCommit c k
        × NoneAbove c k i
        × (d ≡ committed c k))
Commits c i (err _, d) = d ≡ c

commit_at-committed :
    (c : RaftCore) (i : ℕ)
    → IsValid c.log
    → c.log.commit_index < i
    → i ≤ last c.log
    → commit_at i c ≡ (ok tt, committed c i)
unfolding commit_at
commit_at-committed c i v p q = ground (arith, advance_commit_to-Advances c.log i v)

-- One more index, which the leader may not commit.
none_above : (c : RaftCore) (k i : ℕ) → NoneAbove c k (i - 1) → ¬ MayCommit c i → NoneAbove c k i
none_above c k i h n j p q =
    let cases : (j ≤ i - 1) ⊎ (j ≡ i) = omega arith in
    elim cases [ inl r ↦ h j p r | inr e ↦ rw e n ]

one_lower :
    (c : RaftCore) (i : ℕ) (o : Result ⊤ × RaftCore)
    → ¬ MayCommit c i
    → c.log.commit_index < i
    → Commits c (i - 1) o
    → Commits c i o
one_lower c i (err e, d) n p h = h
one_lower c i (ok _, d) n p (inl (same, h)) = inl (same, none_above c _ i h n)
one_lower c i (ok _, d) n p (inr (k, a, b, may, h, eq)) =
    inr (k, a, omega arith, may, none_above c k i h n, eq)

at_index :
    (c : RaftCore) (i : ℕ)
    → IsValid c.log
    → c.log.commit_index < i
    → i ≤ last c.log
    → MayCommit c i
    → Commits c i (commit_at i c)
at_index c i v p q may =
    rw (commit_at-committed c i v p q)
      (inr (i, p, omega arith, may, (λ j a b. absurd (omega arith)), refl))

-- One round of the search, with what the next rounds give.
module _ (c : RaftCore) (i : ℕ) (rest : Result ⊤ × RaftCore) where
  by_quorum :
      (r : Result Bool)
      → (¬ MayCommit c i → Commits c i rest)
      → (MayCommit c i → Commits c i (commit_at i c))
      → has_quorum_at c i ≡ r
      → get_term c.log i ≡ ok (current_term c)
      → Commits c i (elim r as (λ _. Result ⊤ × RaftCore) [
        | err x ↦ (err x, c)
        | ok quorum ↦ if quorum then commit_at i c else rest
      ])
  by_quorum (err x) low here q t = refl
  by_quorum (ok true) low here q t = here (t, q)
  by_quorum (ok false) low here q t = low λ m. ground (arith, q, m.1)

  by_term :
      (r : Result ℕ)
      → (¬ MayCommit c i → Commits c i rest)
      → (MayCommit c i → Commits c i (commit_at i c))
      → get_term c.log i ≡ r
      → Commits c i (elim r as (λ _. Result ⊤ × RaftCore) [
        | err x ↦ (err x, c)
        | ok t ↦
            if not (t == current_term c)
            then rest
            else elim (has_quorum_at c i) as (λ _. Result ⊤ × RaftCore) [
              | err x ↦ (err x, c)
              | ok quorum ↦ if quorum then commit_at i c else rest
            ]
      ])
  by_term (err x) low here q = refl
  by_term (ok t) low here q =
      ground (arith, by_quorum (has_quorum_at c i) low here refl, λ (m : ¬ MayCommit c i). low m)

scan_commit-Commits :
    (n i : ℕ) (c : RaftCore)
    → IsValid c.log
    → i ≡ c.log.commit_index + n
    → i ≤ last c.log
    → Commits c i (scan_commit n i c)
unfolding scan_commit
scan_commit-Commits zero i c v e h = inl (refl, λ j p q. absurd (omega arith))
scan_commit-Commits (suc n) i c v e h =
    by_term c i (scan_commit n (i - 1) c) (get_term c.log i)
      (λ m.
        one_lower c i (scan_commit n (i - 1) c) m (omega arith)
          (scan_commit-Commits n (i - 1) c v (omega arith) (omega arith)))
      (at_index c i v (omega arith) h) refl

-- From a core whose log satisfies the invariant, a successful `TryAdvanceCommitIndex` sets the
-- commit index of the log and of the hard state to the highest index above the commit index whose
-- entry is of the current term and which a quorum has (both quorums in a membership transition),
-- and changes nothing else; where there is no such index it changes nothing; and where it fails it
-- changes nothing.
pub try_advance_commit_index-Commits :
    (c : RaftCore) → IsValid c.log → Commits c (last c.log) (try_advance_commit_index c)
unfolding try_advance_commit_index
try_advance_commit_index-Commits c v = rw (last_index-IsValid c.log v) (
    scan_commit-Commits (last c.log - c.log.commit_index) (last c.log) c v
      (omega (arith, v.commit-le-last)) (omega arith))
