-- ===== src/Raft/MemoryStorage.antt =====
-- `MemoryRaftStorage` (raft/memory_raft_storage.h and .cpp): what a node keeps over a restart, in memory.
pub mod Contiguous
pub mod Writes
pub mod History
use cqupt_block_storage.Base.{
  ℕ, suc, ◌-◌, List, [], ◌∷◌, ◌++◌, Bool, true, false, not, ◌&&◌, ◌||◌, Option, none, some, ltb,
  leb, ◌==◌, if◌then◌else◌, is_empty, length, take, drop, list_eq, inc_u64,
}
use cqupt_block_storage.Common.Status
use cqupt_block_storage.Common.Status.{
  Result, ok, err, ⊤, at, reject_if, invalid_argument, not_found,
}
use cqupt_block_storage.Common.Action.{Action, pure, check, modify, refuse_if, ◌>>=◌, ◌>>◌}
use cqupt_block_storage.Raft.Types.{LogEntry, LogEntryType, HardState, SnapshotMetadata}

pub record SnapshotData : Type 0 where
  pub metadata : SnapshotMetadata
  pub payload : List ℕ

pub record RaftStorageLoadResult : Type 0 where
  pub hard_state : HardState
  pub entries : List LogEntry
  pub snapshot : Option SnapshotData
  pub empty : Bool

pub record MemoryRaftStorage : Type 0 where
  pub is_open : Bool
  pub hard_state : HardState
  pub entries : List LogEntry
  pub snapshot : Option SnapshotData

abbrev pub new_storage : MemoryRaftStorage
new_storage = record {
  is_open = false;
  hard_state = record {
    current_term = 0;
    voted_for = 0;
    commit_index = 0;
    membership_configuration_id = 0;
  };
  entries = [];
  snapshot = none;
}

abbrev pub same_type : LogEntryType → LogEntryType → Bool
same_type LogEntryType.command LogEntryType.command = true
same_type LogEntryType.no_op LogEntryType.no_op = true
same_type LogEntryType.membership_change LogEntryType.membership_change = true
same_type a b = false

unfoldable pub same_entry : LogEntry → LogEntry → Bool
same_entry a b =
    a.index == b.index
    && (a.term == b.term && (same_type a.type b.type && list_eq a.payload b.payload))

unfoldable pub open_storage : MemoryRaftStorage → MemoryRaftStorage
open_storage s = record s { is_open = true }

abbrev pub require_open : MemoryRaftStorage → Result ⊤
require_open s = reject_if (not s.is_open) invalid_argument

abbrev pub snapshot_index : MemoryRaftStorage → ℕ
snapshot_index s = elim s.snapshot [ none ↦ 0 | some d ↦ d.metadata.last_included_index ]

abbrev pub snapshot_term : MemoryRaftStorage → ℕ
snapshot_term s = elim s.snapshot [ none ↦ 0 | some d ↦ d.metadata.last_included_term ]

-- the index of `entries_.back()`, or a number where there is no entry
abbrev pub last_index_of : ℕ → List LogEntry → ℕ
last_index_of n [] = n
last_index_of n (e ∷ es) = last_index_of e.index es

abbrev pub last_log_index : MemoryRaftStorage → ℕ
last_log_index s = last_index_of (snapshot_index s) s.entries

abbrev pub first_log_index : MemoryRaftStorage → ℕ
first_log_index s = inc_u64 (snapshot_index s)

abbrev pub has_entry : ℕ → MemoryRaftStorage → Bool
has_entry index s =
    leb (first_log_index s) index && (leb index (last_log_index s) && not (is_empty s.entries))

-- the entry at `Offset(index)`; the index is not below the first
abbrev pub entry_of : ℕ → MemoryRaftStorage → Result LogEntry
entry_of index s = at s.entries (index - first_log_index s)

unfoldable pub get_term : ℕ → MemoryRaftStorage → Result ℕ
get_term index s =
    if index == 0
    then ok 0
    else if elim s.snapshot [ none ↦ false | some d ↦ index == snapshot_index s ]
    then ok (snapshot_term s)
    else if not (has_entry index s)
    then err not_found
    else Status.◌>>=◌ (entry_of index s) λ e. ok e.term

unfoldable pub load : MemoryRaftStorage → Result RaftStorageLoadResult
load s = Status.◌>>◌ (require_open s) (
    ok (record {
      hard_state = s.hard_state;
      entries = s.entries;
      snapshot = s.snapshot;
      empty =
          is_empty s.entries
          && (elim s.snapshot [ none ↦ true | some d ↦ false ]
              && (s.hard_state.current_term == 0
                  && (s.hard_state.voted_for == 0
                      && (s.hard_state.commit_index == 0
                          && s.hard_state.membership_configuration_id == 0))));
    }))

unfoldable pub save_hard_state : HardState → Action MemoryRaftStorage ⊤
save_hard_state h = do
  check require_open
  refuse_if (λ s. ltb h.current_term s.hard_state.current_term) invalid_argument
  refuse_if (λ s. ltb h.commit_index s.hard_state.commit_index) invalid_argument
  refuse_if (λ s. ltb (last_log_index s) h.commit_index) invalid_argument
  modify λ s. record s { hard_state = h }

-- the loop of `ValidateEntryBatch`, with the index of the entry before
unfoldable pub validate_batch : ℕ → Option ℕ → List LogEntry → Result ⊤
validate_batch boundary before [] = ok tt
validate_batch boundary before (e ∷ es) =
    let rest = validate_batch boundary (some e.index) es in
    if leb e.index boundary
    then err invalid_argument
    else if e.term == 0
    then err invalid_argument
    else if elim before [ none ↦ false | some p ↦ not (e.index == inc_u64 p) ]
    then err invalid_argument
    else rest

unfoldable pub validate_entry_batch : List LogEntry → MemoryRaftStorage → Result ⊤
validate_entry_batch [] s = ok tt
validate_entry_batch (e ∷ es) s =
    Status.◌>>◌ (validate_batch (snapshot_index s) none (e ∷ es))
      (reject_if (ltb (inc_u64 (last_log_index s)) e.index) invalid_argument)

-- the loop over the entries that are there already: what is left to be appended
unfoldable pub entries_to_append : MemoryRaftStorage → List LogEntry → Result (List LogEntry)
entries_to_append s [] = ok []
entries_to_append s (e ∷ es) =
    let rest = entries_to_append s es in
    if ltb (last_log_index s) e.index
    then ok (e ∷ es)
    else if not (has_entry e.index s)
    then err invalid_argument
    else Status.◌>>=◌ (entry_of e.index s)
        λ known. if same_entry known e then rest else err invalid_argument

unfoldable pub append_entries : List LogEntry → Action MemoryRaftStorage ⊤
append_entries es = do
  check require_open
  check (validate_entry_batch es)
  added ← check λ s. entries_to_append s es
  modify λ s. record s { entries = s.entries ++ added }

unfoldable pub truncate_suffix : ℕ → Action MemoryRaftStorage ⊤
truncate_suffix first_index = do
  check require_open
  refuse_if (λ s. leb first_index (snapshot_index s)) invalid_argument
  refuse_if (λ s. leb first_index s.hard_state.commit_index) invalid_argument
  refuse_if (λ s. ltb (inc_u64 (last_log_index s)) first_index) invalid_argument
  modify λ s.
      if leb first_index (last_log_index s)
      then record s { entries = take (first_index - first_log_index s) s.entries }
      else s

-- the entries above an index
unfoldable pub entries_above : ℕ → List LogEntry → List LogEntry
entries_above index [] = []
entries_above index (e ∷ es) =
    let rest = entries_above index es in if leb e.index index then rest else e ∷ rest

unfoldable pub save_snapshot : SnapshotData → Action MemoryRaftStorage ⊤
save_snapshot d = do
  check require_open
  refuse_if (λ s. d.metadata.last_included_index == 0) invalid_argument
  refuse_if (λ s. d.metadata.last_included_term == 0) invalid_argument
  refuse_if (λ s. ltb d.metadata.last_included_index (snapshot_index s)) invalid_argument
  refuse_if (λ s. ltb s.hard_state.commit_index d.metadata.last_included_index) invalid_argument
  stored_term ← check (get_term d.metadata.last_included_index)
  refuse_if (λ s. not (stored_term == d.metadata.last_included_term)) invalid_argument
  modify λ s. record s {
    snapshot = some d;
    entries = entries_above d.metadata.last_included_index s.entries;
  }
