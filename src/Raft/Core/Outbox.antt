-- ===== src/Raft/Core/Outbox.antt =====
-- The two message queues: what may be sent at once, and what waits for the storage.
use cqupt_block_storage.Base.{
  ℕ, List, [], ◌∷◌, ◌++◌, Bool, not, ◌&&◌, ◌||◌, ltb, leb, ◌==◌, if◌then◌else◌,
}
use cqupt_block_storage.Raft.Messages.{RaftMessage, same_message}
use cqupt_block_storage.Raft.Types.{invalid_log_index}
use cqupt_block_storage.Raft.Core.State.{RaftCore, PendingMessage, has_dirty_hard_state}

-- the two `erase(remove_if(…))`
unfoldable pub drop_same : RaftMessage → List RaftMessage → List RaftMessage
drop_same m [] = []
drop_same m (x ∷ xs) = if same_message x m then drop_same m xs else x ∷ drop_same m xs

unfoldable pub drop_same_pending : RaftMessage → List PendingMessage → List PendingMessage
drop_same_pending m [] = []
drop_same_pending m (x ∷ xs) =
    if same_message x.message m then drop_same_pending m xs else x ∷ drop_same_pending m xs

-- `StageMessage`, which always returns OK
unfoldable pub stage_message : RaftMessage → Bool → ℕ → RaftCore → RaftCore
unfolding drop_same drop_same_pending
stage_message message require_hard_state required_stable_index c =
    let has_log_dependency = ltb c.log.stable_index required_stable_index in
    let has_hard_state_dependency = require_hard_state && has_dirty_hard_state c in
    let immediate = drop_same message c.immediate_messages in
    let persisted = drop_same_pending message c.persisted_messages in
    if has_hard_state_dependency || has_log_dependency
    then record c {
      immediate_messages = immediate;
      persisted_messages =
          persisted
          ++ (record {
            message = message;
            require_hard_state = has_hard_state_dependency;
            required_stable_index =
                if has_log_dependency then required_stable_index else invalid_log_index;
          })
            ∷ [];
    }
    else record c { immediate_messages = immediate ++ message ∷ []; persisted_messages = persisted }

-- is everything that a pending message waits for in the storage?
unfoldable pub is_ready : RaftCore → PendingMessage → Bool
is_ready c p =
    (not p.require_hard_state || not (has_dirty_hard_state c))
    && (p.required_stable_index == invalid_log_index
        || leb p.required_stable_index c.log.stable_index)

unfoldable pub ready : RaftCore → List PendingMessage → List RaftMessage
unfolding is_ready
ready c [] = []
ready c (p ∷ ps) = if is_ready c p then p.message ∷ ready c ps else ready c ps

unfoldable pub waiting : RaftCore → List PendingMessage → List PendingMessage
unfolding is_ready
waiting c [] = []
waiting c (p ∷ ps) = if is_ready c p then waiting c ps else p ∷ waiting c ps

-- `ReclassifyBlockedMessages`; its loop fills both lists in one pass
unfoldable pub reclassify_blocked_messages : RaftCore → RaftCore
unfolding ready waiting
reclassify_blocked_messages c = record c {
  immediate_messages = c.immediate_messages ++ ready c c.persisted_messages;
  persisted_messages = waiting c c.persisted_messages;
}
