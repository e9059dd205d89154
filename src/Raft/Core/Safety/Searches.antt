-- ===== src/Raft/Core/Safety/Searches.antt =====
-- The messages of a type and a target in the two queues, and what the steps of `StageMessage` and
-- `ReclassifyBlockedMessages` do to them.
use cqupt_block_storage.Base.{
  ◌≡◌, inl, inr, refl, List, [], ◌∷◌, ◌++◌, true, Bool-cases, if◌then◌else◌, arith,
}
use cqupt_block_storage.Raft.Messages.{RaftMessage, same_message}
use cqupt_block_storage.Raft.Core.State.{RaftCore, PendingMessage}
use cqupt_block_storage.Raft.Core.Outbox.{drop_same, drop_same_pending, is_ready, ready, waiting}

-- The messages of a queue that have the type and the target of a message, and the others.
abbrev pub same_in : RaftMessage → List RaftMessage → List RaftMessage
same_in m [] = []
same_in m (x ∷ xs) = let rest = same_in m xs in if same_message x m then x ∷ rest else rest

abbrev pub other_in : RaftMessage → List RaftMessage → List RaftMessage
other_in m [] = []
other_in m (x ∷ xs) = let rest = other_in m xs in if same_message x m then rest else x ∷ rest

abbrev pub pending_in : RaftMessage → List PendingMessage → List PendingMessage
pending_in m [] = []
pending_in m (x ∷ xs) =
    let rest = pending_in m xs in if same_message x.message m then x ∷ rest else rest

abbrev pub other_pending_in : RaftMessage → List PendingMessage → List PendingMessage
other_pending_in m [] = []
other_pending_in m (x ∷ xs) =
    let rest = other_pending_in m xs in if same_message x.message m then rest else x ∷ rest

pub same_message_refl : (m : RaftMessage) → same_message m m ≡ true
same_message_refl m = ground arith

pub drop_same-same_in :
    (m : RaftMessage) (xs ys : List RaftMessage) → same_in m (drop_same m xs ++ ys) ≡ same_in m ys
unfolding drop_same
drop_same-same_in m [] ys = refl
drop_same-same_in m (x ∷ xs) ys = elim (Bool-cases (same_message x m)) [
  | inl t ↦ rw t (drop_same-same_in m xs ys)
  | inr f ↦ ground (arith, f, drop_same-same_in m xs ys)
]

pub drop_same-none : (m : RaftMessage) (xs : List RaftMessage) → same_in m (drop_same m xs) ≡ []
unfolding drop_same
drop_same-none m [] = refl
drop_same-none m (x ∷ xs) = elim (Bool-cases (same_message x m)) [
  | inl t ↦ rw t (drop_same-none m xs)
  | inr f ↦ ground (arith, f, drop_same-none m xs)
]

pub drop_same-other_in :
    (m : RaftMessage) (xs : List RaftMessage) → other_in m (drop_same m xs) ≡ other_in m xs
unfolding drop_same
drop_same-other_in m [] = refl
drop_same-other_in m (x ∷ xs) = ground (arith, drop_same-other_in m xs)

pub append-other_in :
    (m : RaftMessage) (xs : List RaftMessage) → other_in m (xs ++ m ∷ []) ≡ other_in m xs
append-other_in m [] = rw (same_message_refl m) refl
append-other_in m (x ∷ xs) = ground (arith, append-other_in m xs)

pub drop_pending-pending_in :
    (m : RaftMessage) (xs ys : List PendingMessage)
    → pending_in m (drop_same_pending m xs ++ ys) ≡ pending_in m ys
unfolding drop_same_pending
drop_pending-pending_in m [] ys = refl
drop_pending-pending_in m (x ∷ xs) ys = elim (Bool-cases (same_message x.message m)) [
  | inl t ↦ rw t (drop_pending-pending_in m xs ys)
  | inr f ↦ ground (arith, f, drop_pending-pending_in m xs ys)
]

pub drop_pending-none :
    (m : RaftMessage) (xs : List PendingMessage) → pending_in m (drop_same_pending m xs) ≡ []
unfolding drop_same_pending
drop_pending-none m [] = refl
drop_pending-none m (x ∷ xs) = elim (Bool-cases (same_message x.message m)) [
  | inl t ↦ rw t (drop_pending-none m xs)
  | inr f ↦ ground (arith, f, drop_pending-none m xs)
]

pub drop_pending-other :
    (m : RaftMessage) (xs : List PendingMessage)
    → other_pending_in m (drop_same_pending m xs) ≡ other_pending_in m xs
unfolding drop_same_pending
drop_pending-other m [] = refl
drop_pending-other m (x ∷ xs) = ground (arith, drop_pending-other m xs)

pub append-other_pending :
    (m : RaftMessage) (p : PendingMessage) (xs : List PendingMessage)
    → p.message ≡ m
    → other_pending_in m (xs ++ p ∷ []) ≡ other_pending_in m xs
append-other_pending m p [] e = rw (e, same_message_refl m) refl
append-other_pending m p (x ∷ xs) e = ground (arith, append-other_pending m p xs e)

-- Letting messages go and looking for those of a type and a target commute.
pub ready-same_in :
    (m : RaftMessage) (d : RaftCore) (ps : List PendingMessage)
    → same_in m (ready d ps) ≡ ready d (pending_in m ps)
unfolding ready
ready-same_in m d [] = refl
ready-same_in m d (p ∷ ps) = elim (Bool-cases (is_ready d p)) [
  | inl t ↦ ground (arith, t, ready-same_in m d ps)
  | inr f ↦ ground (arith, f, ready-same_in m d ps)
]

pub waiting-pending_in :
    (m : RaftMessage) (d : RaftCore) (ps : List PendingMessage)
    → pending_in m (waiting d ps) ≡ waiting d (pending_in m ps)
unfolding waiting
waiting-pending_in m d [] = refl
waiting-pending_in m d (p ∷ ps) = elim (Bool-cases (is_ready d p)) [
  | inl t ↦ ground (arith, t, waiting-pending_in m d ps)
  | inr f ↦ ground (arith, f, waiting-pending_in m d ps)
]

pub append-same_in :
    (m : RaftMessage) (xs ys : List RaftMessage)
    → same_in m (xs ++ ys) ≡ same_in m xs ++ same_in m ys
append-same_in m [] ys = refl
append-same_in m (x ∷ xs) ys = ground (arith, append-same_in m xs ys)
