-- ===== src/Raft/Log/Compaction.antt =====
-- `UpdateSnapshotBoundary`: a prefix of applied entries is dropped, and nothing else is lost.
use cqupt_block_storage.Base.{ℕ, suc, ◌-◌, ◌≤◌, ◌<◌, ◌≡◌, some, arith, length-drop, drop, max}
use cqupt_block_storage.Common.Status.{Result, ok, err, ⊤}
use cqupt_block_storage.Raft.Log.{RaftLog, offset, move_boundary, update_snapshot_boundary}
use cqupt_block_storage.Raft.Log.Invariant.{
  IsValid, last_index-IsValid, Contiguous-drop, validate_invariants_complete,
}
use cqupt_block_storage.Raft.Log.Reads.{term_at, term_at_inside, get_term-term_at}

-- The log with the boundary moved up to `i`.
abbrev pub compacted : RaftLog → ℕ → ℕ → RaftLog
compacted l i t = record l {
  entries = drop (i - l.snapshot_index) l.entries;
  snapshot_index = i;
  snapshot_term = t;
  stable_index = max l.stable_index i;
}

compacted-IsValid :
    (l : RaftLog) (i t : ℕ)
    → IsValid l
    → l.snapshot_index < i
    → i ≤ l.applied_index
    → 0 < t
    → IsValid (compacted l i t)
compacted-IsValid l i t v p q pos =
    let n = length-drop (i - l.snapshot_index) l.entries in
    record {
      contiguous =
          Contiguous-drop (suc l.snapshot_index) (i - l.snapshot_index) (suc i) l.entries
            (omega arith) v.contiguous;
      in_range = omega (arith, n);
      boundary_term_zero = λ h. absurd (omega arith);
      boundary_term_pos = λ _. pos;
      snapshot-le-applied = q;
      applied-le-commit = v.applied-le-commit;
      commit-le-last = omega (arith, n);
      snapshot-le-stable = omega arith;
      stable-le-last = omega (arith, n);
    }

-- How a call may end: the boundary stands at an applied index whose term the caller knew, or the
-- call was refused and has changed nothing.
abbrev pub IsBoundary : RaftLog → ℕ → ℕ → Type 0
IsBoundary l i t = (l.snapshot_index ≤ i) × (i ≤ l.applied_index) × (term_at l i ≡ some t)

abbrev pub Compacts : RaftLog → ℕ → ℕ → Result ⊤ × RaftLog → Type 0
Compacts l i t (ok _, l') = IsBoundary l i t × (l' ≡ compacted l i t) × IsValid l'
Compacts l i t (err _, l') = (l' ≡ l) × ¬ IsBoundary l i t

move_boundary-Compacts :
    (l : RaftLog) (i t : ℕ)
    → IsValid l
    → l.snapshot_index < i
    → i ≤ l.applied_index
    → Compacts l i t (move_boundary i t l)
unfolding move_boundary offset
move_boundary-Compacts l i t v p q =
    let (s, known, pos) = term_at_inside l i v p (omega arith) in
    ground (
      arith,
      get_term-term_at l i v,
      compacted-IsValid l i t v p q,
      validate_invariants_complete (compacted l i t),
    )

-- On a log that satisfies the invariant, `UpdateSnapshotBoundary` succeeds exactly where the index
-- is at or above the boundary, at or below the applied index, and the term is the one that the log
-- has there; then the entries up to the index are gone, the boundary stands there, the stable
-- index is raised to it where it was below, and the invariant holds; else nothing has changed.
pub update_snapshot_boundary-Compacts :
    (l : RaftLog) (i t : ℕ) → IsValid l → Compacts l i t (update_snapshot_boundary i t l)
unfolding update_snapshot_boundary
update_snapshot_boundary-Compacts l i t v =
    ground (arith, last_index-IsValid l v, term_at_inside l i v, move_boundary-Compacts l i t v)
