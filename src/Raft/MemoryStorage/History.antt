-- ===== src/Raft/MemoryStorage/History.antt =====
-- What no sequence of calls of a storage undoes.
use cqupt_block_storage.Base.{ℕ, ◌<◌, List, [], ◌∷◌, All, u64_mod}
use cqupt_block_storage.Raft.Types.{LogEntry, HardState}
use cqupt_block_storage.Raft.MemoryStorage.{
  MemoryRaftStorage, SnapshotData, open_storage, save_hard_state, append_entries, truncate_suffix,
  save_snapshot,
}

-- A call of the storage.
pub data Call : Type 0 where
  open_call : Call
  save_hard_state_call : HardState → Call
  append_call : List LogEntry → Call
  truncate_call : ℕ → Call
  save_snapshot_call : SnapshotData → Call

unfoldable pub after : Call → MemoryRaftStorage → MemoryRaftStorage
after open_call s = open_storage s
after (save_hard_state_call h) s = (save_hard_state h s).1
after (append_call es) s = (append_entries es s).1
after (truncate_call i) s = (truncate_suffix i s).1
after (save_snapshot_call d) s = (save_snapshot d s).1

unfoldable pub history : List Call → MemoryRaftStorage → MemoryRaftStorage
unfolding after
history [] s = s
history (c ∷ cs) s = history cs (after c s)

-- The indexes that a call brings are 64-bit words.
abbrev pub HasWords : Call → Type 0
HasWords (append_call es) = All (λ e. e.index < u64_mod) es
HasWords c = Unit
