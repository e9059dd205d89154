-- ===== src/Raft/Core/Safety/Quorums.antt =====
-- The quorums of `TryAdvanceCommitIndex`, in stable and in joint memberships, overlap.
use cqupt_block_storage.Base.{
  ℕ, suc, ◌+◌, ◌≤◌, ◌<◌, ◌≡◌, ◌⊎◌, inl, inr, refl, List, [], ◌∷◌, true, leb, if◌then◌else◌, arith,
  length, Bool-cases,
}
use cqupt_block_storage.Common.Status.{◌>>=◌, Result, ok, err}
use cqupt_block_storage.Raft.Types.{PeerProgress}
use cqupt_block_storage.Raft.Core.State.{RaftCore, member_ids, contains_node}
use cqupt_block_storage.Raft.Core.Progress.{find_peer_progress}
use cqupt_block_storage.Raft.Core.Commit.{
  count_for, count_matches, majority, has_joint_quorum_at, has_quorum_at,
}

-- The leader knows that a node has the log up to an index.
abbrev pub Reaches : RaftCore → ℕ → ℕ → Type 0
Reaches c i id = (p : PeerProgress) × (find_peer_progress id c ≡ ok p) × (i ≤ p.match_index)

-- The members whose majority decides: the voters, or in a transition both the old and the next.
abbrev pub Decides : RaftCore → List ℕ → Type 0
Decides c ids =
    if c.membership_state.has_active_transition
    then (ids ≡ member_ids c.membership_state.voters)
      ⊎ (ids ≡ member_ids c.membership_state.next_voters)
    else ids ≡ c.voter_ids

count_for_cases :
    (c : RaftCore) (i id : ℕ) (ids : List ℕ)
    → (Reaches c i id × (count_for c i (id ∷ ids) ≡ suc (count_for c i ids)))
      ⊎ (count_for c i (id ∷ ids) ≡ count_for c i ids)
unfolding count_for
count_for_cases c i id ids = go (find_peer_progress id c) refl
  where
    rest : ℕ
    rest = count_for c i ids

    go :
        (r : Result PeerProgress)
        → find_peer_progress id c ≡ r
        → let n = elim r as (λ _. ℕ) [
          | ok p ↦ if leb i p.match_index then suc rest else rest
          | err e ↦ rest
        ] in
          (Reaches c i id × (n ≡ suc rest)) ⊎ (n ≡ rest)
    go (err e) h = inr refl
    go (ok p) h = elim (Bool-cases (leb i p.match_index)) [
      | inl t ↦ inl ((p, h, ground (arith, t)), ground (arith, t))
      | inr t ↦ inr (ground (arith, t))
    ]

count_for-length : (c : RaftCore) (i : ℕ) (ids : List ℕ) → count_for c i ids ≤ length ids
unfolding count_for
count_for-length c i [] = omega arith
count_for-length c i (id ∷ ids) =
    ground (arith, count_for_cases c i id ids, count_for-length c i ids)

-- Two counts that are together more than the list share a node.
shared_node :
    (c d : RaftCore) (i j : ℕ) (ids : List ℕ)
    → length ids < count_for c i ids + count_for d j ids
    → (id : ℕ) × (contains_node ids id ≡ true) × Reaches c i id × Reaches d j id
unfolding contains_node
shared_node c d i j [] h =
    absurd (omega (arith, h, count_for-length c i [], count_for-length d j []))
shared_node c d i j (id ∷ ids) h = elim (count_for_cases c i id ids) [
  | inl (a, e) ↦ elim (count_for_cases d j id ids) [
    | inl (b, f) ↦ (id, ground arith, a, b)
    | inr f ↦ later (shared_node c d i j ids (omega (arith, h, e, f)))
  ]
  | inr e ↦ elim (count_for_cases d j id ids) [
    | inl (b, f) ↦ later (shared_node c d i j ids (omega (arith, h, e, f)))
    | inr f ↦ later (shared_node c d i j ids (omega (arith, h, e, f)))
  ]
]
  where
    later :
        ((n : ℕ) × (contains_node ids n ≡ true) × Reaches c i n × Reaches d j n)
        → (n : ℕ) × (contains_node (id ∷ ids) n ≡ true) × Reaches c i n × Reaches d j n
    later (n, inside, a, b) = (n, ground (arith, inside), a, b)

-- One step of both counts.
count_step :
    (i n k : ℕ) (r : Result PeerProgress) (s : Result ℕ)
    → ((m : ℕ) → s ≡ ok m → k ≡ m)
    → (r >>= λ p. s >>= λ rest. ok (if leb i p.match_index then suc rest else rest)) ≡ ok n
    → elim r as (λ _. ℕ) [ ok p ↦ if leb i p.match_index then suc k else k | err e ↦ k ] ≡ n
count_step i n k (err e) s h q = absurd (ground (arith, q))
count_step i n k (ok p) (err e) h q = absurd (ground (arith, q))
count_step i n k (ok p) (ok m) h q = ground (arith, h m refl, q)

count_matches-count_for :
    (c : RaftCore) (i n : ℕ) (ids : List ℕ) → count_matches c i ids ≡ ok n → count_for c i ids ≡ n
unfolding count_matches count_for
count_matches-count_for c i n [] h = ground (arith, h)
count_matches-count_for c i n (id ∷ ids) h =
    count_step i n (count_for c i ids) (find_peer_progress id c) (count_matches c i ids)
      (λ m e. count_matches-count_for c i m ids e) h

stable_count :
    (c : RaftCore) (i : ℕ) (r : Result ℕ)
    → count_matches c i c.voter_ids ≡ r
    → (r >>= λ matches. ok (leb (majority c.voter_ids) matches)) ≡ ok true
    → majority c.voter_ids ≤ count_for c i c.voter_ids
stable_count c i (err e) h q = absurd (ground (arith, q))
stable_count c i (ok n) h q = ground (arith, count_matches-count_for c i n c.voter_ids h, q)

quorum_count :
    (c : RaftCore) (i : ℕ) (ids : List ℕ)
    → has_quorum_at c i ≡ ok true
    → Decides c ids
    → majority ids ≤ count_for c i ids
unfolding has_quorum_at has_joint_quorum_at
quorum_count c i ids h k = elim (Bool-cases c.membership_state.has_active_transition) [
  | inl t ↦ ground (arith, t, h, k)
  | inr f ↦ ground (arith, f, h, k, stable_count c i (count_matches c i c.voter_ids) refl)
]

-- Where the quorum test of `TryAdvanceCommitIndex` succeeds for an index on one core and for an
-- index on another (or the same) core, and a list of members decides on both (the voters in a
-- stable membership, the old or the next voters in a transition), then some member of the list is
-- known to reach the first index on the first core and the second index on the second core.
pub has_quorum_at-Reaches :
    (c d : RaftCore) (i j : ℕ) (ids : List ℕ)
    → Decides c ids
    → Decides d ids
    → has_quorum_at c i ≡ ok true
    → has_quorum_at d j ≡ ok true
    → (id : ℕ) × (contains_node ids id ≡ true) × Reaches c i id × Reaches d j id
has_quorum_at-Reaches c d i j ids k l p q =
    shared_node c d i j ids (omega (arith, quorum_count c i ids p k, quorum_count d j ids q l))
