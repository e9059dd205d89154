-- ===== src/Raft/Log.antt =====
-- `class RaftLog` (raft/raft_log.h, raft/raft_log.cpp). Output pointers are never null here, so the
-- `Require...Pointer` checks always pass and are left out.
pub mod Invariant
pub mod Updates
pub mod Reads
pub mod Compaction
pub mod Conflict
pub mod History
use cqupt_block_storage.Base.{
  ℕ, ◌+◌, ◌-◌, min, max, List, [], ◌∷◌, ◌++◌, Bool, false, not, ◌&&◌, ltb, leb, ◌==◌, if◌then◌else◌,
  is_empty, take, drop, inc_u64, add_u64, sub_u64,
}
use cqupt_block_storage.Common.Status
use cqupt_block_storage.Common.Status.{
  Result, ok, err, ⊤, reject_if, is_ok, at, invalid_argument, not_found, internal_error,
}
use cqupt_block_storage.Common.Action.{Action, pure, check, modify, ◌>>=◌, ◌>>◌, refuse_if}
use cqupt_block_storage.Raft.Types.{
  LogEntry, ConflictType, ConflictResult, initial_term, invalid_log_index,
}

pub record RaftLog : Type 0 where
  pub entries : List LogEntry
  pub snapshot_index : ℕ
  pub snapshot_term : ℕ
  pub stable_index : ℕ
  pub commit_index : ℕ
  pub applied_index : ℕ

-- `RaftLog()`
abbrev pub empty_log : RaftLog
empty_log = record {
  entries = [];
  snapshot_index = invalid_log_index;
  snapshot_term = initial_term;
  stable_index = invalid_log_index;
  commit_index = invalid_log_index;
  applied_index = invalid_log_index;
}

-- `entries_.back().index`, or a default for the empty vector
abbrev pub back_index : ℕ → List LogEntry → ℕ
back_index d [] = d
back_index d (e ∷ es) = back_index e.index es

unfoldable pub last_index : RaftLog → ℕ
last_index l = back_index l.snapshot_index l.entries

unfoldable pub first_index : RaftLog → ℕ
first_index l = inc_u64 l.snapshot_index

unfoldable pub has_log_entry : RaftLog → ℕ → Bool
unfolding last_index
has_log_entry l index = ltb l.snapshot_index index && leb index (last_index l)

unfoldable pub offset : RaftLog → ℕ → ℕ
offset l index = sub_u64 (sub_u64 index l.snapshot_index) 1

unfoldable pub get_entry : RaftLog → ℕ → Result LogEntry
unfolding has_log_entry offset
get_entry l index =
    if leb index l.snapshot_index
    then err not_found
    else if not (has_log_entry l index)
    then err not_found
    else at l.entries (offset l index)

unfoldable pub get_term : RaftLog → ℕ → Result ℕ
unfolding has_log_entry offset
get_term l index =
    if index == invalid_log_index
    then ok initial_term
    else if index == l.snapshot_index
    then ok l.snapshot_term
    else if ltb index l.snapshot_index
    then err not_found
    else if not (has_log_entry l index)
    then err not_found
    else Status.◌>>=◌ (at l.entries (offset l index)) (λ e. ok e.term)

unfoldable pub get_entries : RaftLog → ℕ → ℕ → Result (List LogEntry)
unfolding last_index offset
get_entries l begin end =
    if ltb end begin
    then err invalid_argument
    else if leb begin l.snapshot_index
    then err not_found
    else if ltb (inc_u64 (last_index l)) end
    then err not_found
    else if begin == end
    then ok []
    else ok (take (offset l end - offset l begin) (drop (offset l begin) l.entries))

-- the body of the loop of `ValidateEntries`
validate_entry : RaftLog → ℕ → LogEntry → Result ⊤
validate_entry l expected e =
    if not (e.index == expected)
    then err invalid_argument
    else if leb e.index l.snapshot_index
    then err invalid_argument
    else if e.term == initial_term
    then err invalid_argument
    else ok tt

-- that loop, from round `i` on
validate_from : RaftLog → ℕ → ℕ → List LogEntry → Result ⊤
unfolding validate_entry
validate_from l start i [] = ok tt
validate_from l start i (e ∷ es) =
    Status.◌>>◌ (validate_entry l (add_u64 start i) e) (validate_from l start (i + 1) es)

unfoldable pub validate_entries : RaftLog → List LogEntry → ℕ → Result ⊤
unfolding validate_from
validate_entries l [] start = ok tt
validate_entries l (e ∷ es) start =
    Status.◌>>◌ (reject_if (not (e.index == start)) invalid_argument)
      (validate_from l start 0 (e ∷ es))

-- the last loop of `ValidateInvariants`
validate_stored : ℕ → List LogEntry → Result ⊤
validate_stored expected [] = ok tt
validate_stored expected (e ∷ es) =
    let rest = validate_stored (inc_u64 expected) es in
    if not (e.index == expected)
    then err internal_error
    else if e.term == initial_term
    then err internal_error
    else rest

unfoldable pub validate_invariants : RaftLog → Result ⊤
unfolding validate_stored last_index
validate_invariants l =
    if ltb l.commit_index l.applied_index
    then err internal_error
    else if ltb (last_index l) l.commit_index
    then err internal_error
    else if ltb (last_index l) l.stable_index
    then err internal_error
    else if ltb (last_index l) l.snapshot_index
    then err internal_error
    else if ltb l.commit_index l.snapshot_index
    then err internal_error
    else if ltb l.applied_index l.snapshot_index
    then err internal_error
    else if ltb l.stable_index l.snapshot_index
    then err internal_error
    else validate_stored (inc_u64 l.snapshot_index) l.entries

unfoldable pub append : List LogEntry → Action RaftLog ⊤
unfolding validate_entries validate_invariants last_index
append entries = if is_empty entries then pure tt else do
  check λ l. validate_entries l entries (inc_u64 (last_index l))
  modify λ l. record l { entries = l.entries ++ entries }
  check validate_invariants

-- the loop of `FindConflict`
find_conflict_from : RaftLog → List LogEntry → Result ConflictResult
unfolding last_index get_term
find_conflict_from l [] = ok (record { type = ConflictType.none; index = invalid_log_index })
find_conflict_from l (e ∷ es) =
    let rest = find_conflict_from l es in
    if leb e.index l.snapshot_index
    then err invalid_argument
    else if ltb (last_index l) e.index
    then ok (record { type = ConflictType.append; index = e.index })
    else Status.◌>>=◌ (get_term l e.index) λ local_term.
      if not (local_term == e.term)
      then ok (record { type = ConflictType.conflict; index = e.index })
      else rest

unfoldable pub find_conflict : RaftLog → List LogEntry → Result ConflictResult
unfolding validate_entries find_conflict_from
find_conflict l [] = ok (record { type = ConflictType.none; index = invalid_log_index })
find_conflict l (e ∷ es) =
    Status.◌>>◌ (validate_entries l (e ∷ es) e.index) (find_conflict_from l (e ∷ es))

-- `TruncateSuffix`, once the index is known to lie inside the log
unfoldable pub cut_suffix : ℕ → Action RaftLog ⊤
unfolding last_index offset validate_invariants
cut_suffix index = do
  modify λ l. record l { entries = take (offset l index) l.entries }
  modify λ l. record l { stable_index = min l.stable_index (last_index l) }
  check validate_invariants

unfoldable pub truncate_suffix : ℕ → Action RaftLog ⊤
unfolding last_index
truncate_suffix index = do
  refuse_if (λ l. leb index l.snapshot_index) invalid_argument
  refuse_if (λ l. leb index l.commit_index) invalid_argument
  refuse_if (λ l. ltb (inc_u64 (last_index l)) index) invalid_argument
  λ l. if index == inc_u64 (last_index l) then (ok tt, l) else cut_suffix index l

unfoldable pub advance_stable_to : ℕ → Action RaftLog ⊤
unfolding last_index validate_invariants
advance_stable_to index = do
  refuse_if (λ l. ltb index l.stable_index) invalid_argument
  refuse_if (λ l. ltb (last_index l) index) invalid_argument
  modify λ l. record l { stable_index = index }
  check validate_invariants

unfoldable pub advance_commit_to : ℕ → Action RaftLog ⊤
unfolding last_index validate_invariants
advance_commit_to index = do
  refuse_if (λ l. ltb index l.commit_index) invalid_argument
  refuse_if (λ l. ltb (last_index l) index) invalid_argument
  modify λ l. record l { commit_index = index }
  check validate_invariants

unfoldable pub advance_applied_to : ℕ → Action RaftLog ⊤
unfolding last_index validate_invariants
advance_applied_to index = do
  refuse_if (λ l. ltb index l.applied_index) invalid_argument
  refuse_if (λ l. ltb l.commit_index index) invalid_argument
  modify λ l. record l { applied_index = index }
  check validate_invariants

-- `UpdateSnapshotBoundary`, once the index is known to differ from the old boundary
unfoldable pub move_boundary : ℕ → ℕ → Action RaftLog ⊤
unfolding get_term offset validate_invariants
move_boundary index term = do
  existing_term ← check λ l. get_term l index
  refuse_if (λ l. not (existing_term == term)) invalid_argument
  modify λ l.
      if ltb l.snapshot_index index
      then record l { entries = drop (offset l (inc_u64 index)) l.entries }
      else l
  modify λ l. record l { snapshot_index = index; snapshot_term = term }
  modify λ l. record l {
    stable_index = max l.stable_index l.snapshot_index;
    commit_index = max l.commit_index l.snapshot_index;
    applied_index = max l.applied_index l.snapshot_index;
  }
  check validate_invariants

unfoldable pub update_snapshot_boundary : ℕ → ℕ → Action RaftLog ⊤
unfolding last_index
update_snapshot_boundary index term = do
  refuse_if (λ l. ltb index l.snapshot_index) invalid_argument
  refuse_if (λ l. ltb l.applied_index index) invalid_argument
  refuse_if (λ l. ltb (last_index l) index) invalid_argument
  refuse_if (λ l. ltb invalid_log_index index && term == initial_term) invalid_argument
  λ l.
      if index == l.snapshot_index
      then refuse_if (λ k. not (term == k.snapshot_term)) invalid_argument l
      else move_boundary index term l

unfoldable pub matches : RaftLog → ℕ → ℕ → Bool
unfolding get_term
matches l index term = elim (get_term l index) [
  | ok local_term ↦ local_term == term
  | err e ↦ false
]
