-- ===== src/Raft/Core/Safety/Queues.antt =====
-- The message queues: what `StageMessage` puts where, and when `ReclassifyBlockedMessages` lets it
-- go.
use cqupt_block_storage.Base.{
  ℕ, ◌≡◌, inl, inr, refl, sym, subst, ◌∙◌, [], ◌∷◌, map, Bool, true, false, Bool-cases, not, ◌&&◌,
  ◌||◌, ltb, if◌then◌else◌, arith,
}
use cqupt_block_storage.Raft.Types.{HardState, invalid_log_index}
use cqupt_block_storage.Raft.Log.{RaftLog}
use cqupt_block_storage.Raft.Messages.{RaftMessage}
use cqupt_block_storage.Raft.Core.State.{RaftCore, PendingMessage, has_dirty_hard_state}
use cqupt_block_storage.Raft.Core.Outbox.{
  stage_message, is_ready, ready, waiting, reclassify_blocked_messages,
}
use cqupt_block_storage.Raft.Core.Safety.Searches.{
  same_in, other_in, pending_in, other_pending_in, same_message_refl, drop_same-same_in,
  drop_same-none, drop_same-other_in, append-other_in, drop_pending-pending_in, drop_pending-none,
  drop_pending-other, append-other_pending, ready-same_in, waiting-pending_in, append-same_in,
}

-- Where a message is: it waits, or it may be sent; and it is the only one of its type and target.
abbrev pub Places : RaftMessage → Bool → RaftCore → Type 0
Places m true d =
    (same_in m d.immediate_messages ≡ [])
    × (map (λ p. p.message) (pending_in m d.persisted_messages) ≡ m ∷ [])
Places m false d =
    (same_in m d.immediate_messages ≡ m ∷ []) × (pending_in m d.persisted_messages ≡ [])

-- The core once the storage, and the log with it, have gone on.
abbrev pub stored : HardState → RaftLog → RaftCore → RaftCore
stored h l c = record c { persisted_hard_state = h; log = l }

-- Something that the message depends on was not in the storage, and still is not.
abbrev pub is_blocked : Bool → ℕ → RaftCore → RaftCore → Bool
is_blocked b i c d =
    (b && has_dirty_hard_state c && has_dirty_hard_state d)
    || (ltb c.log.stable_index i && ltb d.log.stable_index i)

only_ready :
    (m : RaftMessage) (p : PendingMessage) (e : RaftCore)
    → is_ready e p ≡ true
    → p.message ≡ m
    → ready e (p ∷ []) ≡ m ∷ []
unfolding ready
only_ready m p e t same = ground (arith, t, same)

none_ready : (p : PendingMessage) (e : RaftCore) → is_ready e p ≡ false → ready e (p ∷ []) ≡ []
unfolding ready
none_ready p e f = ground (arith, f)

none_waiting : (p : PendingMessage) (e : RaftCore) → is_ready e p ≡ true → waiting e (p ∷ []) ≡ []
unfolding waiting
none_waiting p e t = ground (arith, t)

only_waiting :
    (m : RaftMessage) (p : PendingMessage) (e : RaftCore)
    → is_ready e p ≡ false
    → p.message ≡ m
    → map (λ q. q.message) (waiting e (p ∷ [])) ≡ m ∷ []
unfolding waiting
only_waiting m p e f same = ground (arith, f, same)

reclassify-pending :
    (m : RaftMessage) (p : PendingMessage) (e : RaftCore)
    → same_in m e.immediate_messages ≡ []
    → pending_in m e.persisted_messages ≡ p ∷ []
    → p.message ≡ m
    → Places m (not (is_ready e p)) (reclassify_blocked_messages e)
unfolding reclassify_blocked_messages
reclassify-pending m p e none one same =
    let sent = append-same_in m e.immediate_messages (ready e e.persisted_messages) in
    let left = waiting-pending_in m e e.persisted_messages in
    let gone = ready-same_in m e e.persisted_messages in
    elim (Bool-cases (is_ready e p)) [
      | inl t ↦ rw t (
        sent ∙ rw (none, gone, one) (only_ready m p e t same),
        left ∙ rw one (none_waiting p e t),
      )
      | inr f ↦ rw f (
        sent ∙ rw (none, gone, one) (none_ready p e f),
        rw (left, one) (only_waiting m p e f same),
      )
    ]

no_ready : (m : RaftMessage) (e : RaftCore) → m ∷ ready e [] ≡ m ∷ []
unfolding ready
no_ready m e = refl

no_waiting : (e : RaftCore) → waiting e [] ≡ []
unfolding waiting
no_waiting e = refl

reclassify-sent :
    (m : RaftMessage) (e : RaftCore)
    → same_in m e.immediate_messages ≡ m ∷ []
    → pending_in m e.persisted_messages ≡ []
    → Places m false (reclassify_blocked_messages e)
unfolding reclassify_blocked_messages
reclassify-sent m e one none =
    let sent = append-same_in m e.immediate_messages (ready e e.persisted_messages) in
    let left = waiting-pending_in m e e.persisted_messages in
    let gone = ready-same_in m e e.persisted_messages in
    (sent ∙ rw (one, gone, none) (no_ready m e), left ∙ rw none (no_waiting e))

-- The entry of a message that has to wait.
abbrev pending : RaftMessage → Bool → ℕ → RaftCore → PendingMessage
pending m b i c = record {
  message = m;
  require_hard_state = b && has_dirty_hard_state c;
  required_stable_index = if ltb c.log.stable_index i then i else invalid_log_index;
}

ready_iff :
    (m : RaftMessage) (b : Bool) (i : ℕ) (c d : RaftCore)
    → not (is_ready d (pending m b i c)) ≡ is_blocked b i c d
unfolding is_ready
ready_iff m b i c d = ground arith

-- What `StageMessage` does, for a message that has to wait and for one that has not.
stage_message-pending :
    (m : RaftMessage) (b : Bool) (i : ℕ) (c : RaftCore)
    → is_blocked b i c c ≡ true
    → let d = stage_message m b i c in
      (same_in m d.immediate_messages ≡ [])
      × (pending_in m d.persisted_messages ≡ pending m b i c ∷ [])
      × (other_in m d.immediate_messages ≡ other_in m c.immediate_messages)
      × (other_pending_in m d.persisted_messages ≡ other_pending_in m c.persisted_messages)
unfolding stage_message
stage_message-pending m b i c t =
    let blocked : (b && has_dirty_hard_state c) || ltb c.log.stable_index i ≡ true =
      ground (arith, t) in
    rw blocked (
      drop_same-none m c.immediate_messages,
      drop_pending-pending_in m c.persisted_messages (pending m b i c ∷ []) ∙ one,
      drop_same-other_in m c.immediate_messages,
      append-other_pending m (pending m b i c) _ refl ∙ drop_pending-other m c.persisted_messages,
    )
  where
    one : pending_in m (pending m b i c ∷ []) ≡ pending m b i c ∷ []
    one = rw (same_message_refl m) refl

stage_message-sent :
    (m : RaftMessage) (b : Bool) (i : ℕ) (c : RaftCore)
    → is_blocked b i c c ≡ false
    → let d = stage_message m b i c in
      (same_in m d.immediate_messages ≡ m ∷ [])
      × (pending_in m d.persisted_messages ≡ [])
      × (other_in m d.immediate_messages ≡ other_in m c.immediate_messages)
      × (other_pending_in m d.persisted_messages ≡ other_pending_in m c.persisted_messages)
unfolding stage_message
stage_message-sent m b i c f =
    let free : (b && has_dirty_hard_state c) || ltb c.log.stable_index i ≡ false =
      ground (arith, f) in
    rw free (
      drop_same-same_in m c.immediate_messages (m ∷ []) ∙ one,
      drop_pending-none m c.persisted_messages,
      append-other_in m _ ∙ drop_same-other_in m c.immediate_messages,
      drop_pending-other m c.persisted_messages,
    )
  where
    one : same_in m (m ∷ []) ≡ m ∷ []
    one = rw (same_message_refl m) refl

pub stage_message-hard_state :
    (m : RaftMessage) (b : Bool) (i : ℕ) (c : RaftCore)
    → (stage_message m b i c).hard_state ≡ c.hard_state
unfolding stage_message
stage_message-hard_state m b i c = ground arith

-- The other messages of both queues are the same.
abbrev pub KeepsOthers : RaftMessage → RaftCore → RaftCore → Type 0
KeepsOthers m c d =
    (other_in m d.immediate_messages ≡ other_in m c.immediate_messages)
    × (other_pending_in m d.persisted_messages ≡ other_pending_in m c.persisted_messages)

-- After `StageMessage` of a message that may require the hard state and an index, the staged
-- message is the only one of its type and target in the two queues: it is the waiting one where
-- the hard state is required and not stored or the index is above the stable index, and the one
-- that may be sent at once otherwise; the messages of other types or targets stay as they were.
-- When then any hard state is stored and the log is any log, `ReclassifyBlockedMessages` keeps the
-- message waiting exactly as long as a hard state that it waits for is still not the stored one,
-- or an index that it waits for is still above the stable index, and otherwise it is the only one
-- of its type and target that may be sent.
pub stage_message-Places :
    (m : RaftMessage) (b : Bool) (i : ℕ) (c : RaftCore) (h : HardState) (l : RaftLog)
    → let d = stage_message m b i c in
      Places m (is_blocked b i c c) d
      × KeepsOthers m c d
      × Places m (is_blocked b i c (stored h l d)) (reclassify_blocked_messages (stored h l d))
stage_message-Places m b i c h l =
    let d = stage_message m b i c in
    elim (Bool-cases (is_blocked b i c c)) [
      | inl t ↦
          let (none, one, others, rest) = stage_message-pending m b i c t in
          let later = reclassify-pending m (pending m b i c) (stored h l d) none one refl in
          rw t (
            (none, rw one refl),
            (others, rest),
            subst (λ x. Places m x (reclassify_blocked_messages (stored h l d)))
                (ready_iff m b i c (stored h l d)) later,
          )
      | inr f ↦
          let (one, none, others, rest) = stage_message-sent m b i c f in
          let free : is_blocked b i c (stored h l d) ≡ false = ground (arith, f) in
          rw f (
            (one, none),
            (others, rest),
            subst (λ x. Places m x (reclassify_blocked_messages (stored h l d))) (sym free)
                (reclassify-sent m (stored h l d) one none),
          )
    ]
