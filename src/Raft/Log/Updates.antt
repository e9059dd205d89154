-- ===== src/Raft/Log/Updates.antt =====
-- What each call that changes a `RaftLog` does, on every branch.
use mathlib.Core.List.{append-nil}
use cqupt_block_storage.Base.{
  ℕ, suc, ◌-◌, ◌≤◌, ◌<◌, ◌≡◌, ap, sym, ◌⊎◌, List, [], ◌∷◌, ◌++◌, arith, length-append, length-take,
  take, take-length, min, u64_mod, inc_u64,
}
use cqupt_block_storage.Common.Status.{Result, ok, err, ⊤}
use cqupt_block_storage.Raft.Types.{LogEntry}
use cqupt_block_storage.Raft.Log.{
  RaftLog, append, cut_suffix, truncate_suffix, advance_stable_to, advance_commit_to,
  advance_applied_to,
}
use cqupt_block_storage.Raft.Log.Invariant.{
  last, offset_lem, IsValid, back_index-Contiguous, last_index-IsValid,
  validate_invariants_complete, Continues, validate_entries_iff, Contiguous-append, Contiguous-take,
}

appended-IsValid :
    (l : RaftLog) (es : List LogEntry)
    → IsValid l
    → Continues l (suc (last l)) es
    → IsValid (record l { entries = l.entries ++ es })
appended-IsValid l es v c = record {
  contiguous =
      Contiguous-append (suc l.snapshot_index) (suc (last l)) l.entries es (omega arith)
        v.contiguous c.0;
  in_range = omega (arith, length-append l.entries es);
  boundary_term_zero = v.boundary_term_zero;
  boundary_term_pos = v.boundary_term_pos;
  snapshot-le-applied = v.snapshot-le-applied;
  applied-le-commit = v.applied-le-commit;
  commit-le-last = omega (arith, length-append l.entries es);
  snapshot-le-stable = v.snapshot-le-stable;
  stable-le-last = omega (arith, length-append l.entries es);
}

-- How a call of `Append` may end: the entries continue the log and are all there behind the old
-- ones, or they do not and nothing has changed.
abbrev pub Appends : RaftLog → List LogEntry → Result ⊤ × RaftLog → Type 0
Appends l es (ok _, l') =
    Continues l (suc (last l)) es × (l' ≡ record l { entries = l.entries ++ es }) × IsValid l'
Appends l es (err _, l') = (l' ≡ l) × ¬ Continues l (suc (last l)) es

-- On a log that satisfies the invariant, `Append` succeeds exactly where the entries continue the
-- log without a gap, with positive terms and within 64 bits; then they stand behind the old ones,
-- nothing else has changed and the invariant holds; else nothing has changed.
pub append-Appends : (l : RaftLog) (es : List LogEntry) → IsValid l → Appends l es (append es l)
unfolding append
append-Appends l [] v = (
  (tt, omega arith, omega arith),
  ap (λ es. record l { entries = es }) (sym (append-nil l.entries)),
  v,
)
append-Appends l (e ∷ es) v = ground (
  arith,
  last_index-IsValid l v,
  validate_entries_iff l (inc_u64 (last l)) e es,
  appended-IsValid l (e ∷ es) v,
  validate_invariants_complete (record l { entries = l.entries ++ e ∷ es }),
)

-- How a call of `TruncateSuffix` may end: the entries from `i` on are gone, none of them committed,
-- or `i` is at a committed place, or beyond the end of the log, or the log fills the index range.
abbrev pub Truncates : RaftLog → ℕ → Result ⊤ × RaftLog → Type 0
Truncates l i (ok _, l') =
    (l.commit_index < i)
    × (i ≤ suc (last l))
    × (l' ≡ record l {
      entries = take (i - l.snapshot_index - 1) l.entries;
      stable_index = min l.stable_index (i - 1);
    })
    × IsValid l'
Truncates l i (err _, l') =
    (l' ≡ l) × ((i ≤ l.commit_index) ⊎ (suc (last l) < i) ⊎ (suc (last l) ≡ u64_mod))

truncated-IsValid :
    (l : RaftLog) (i : ℕ)
    → IsValid l
    → l.commit_index < i
    → i ≤ suc (last l)
    → IsValid (record l {
      entries = take (i - l.snapshot_index - 1) l.entries;
      stable_index = min l.stable_index (i - 1);
    })
truncated-IsValid l i v p q =
    let n = length-take (i - l.snapshot_index - 1) l.entries in
    record {
      contiguous = Contiguous-take (suc l.snapshot_index) _ l.entries v.contiguous;
      in_range = omega (arith, n);
      boundary_term_zero = v.boundary_term_zero;
      boundary_term_pos = v.boundary_term_pos;
      snapshot-le-applied = v.snapshot-le-applied;
      applied-le-commit = v.applied-le-commit;
      commit-le-last = omega (arith, n);
      snapshot-le-stable = omega arith;
      stable-le-last = omega (arith, n);
    }

cut_suffix_lem :
    (l : RaftLog) (i : ℕ)
    → IsValid l
    → l.commit_index < i
    → i ≤ last l
    → cut_suffix i l ≡ (
      ok tt,
      record l {
        entries = take (i - l.snapshot_index - 1) l.entries;
        stable_index = min l.stable_index (i - 1);
      },
    )
unfolding cut_suffix
cut_suffix_lem l i v p q =
    let k : ℕ = i - l.snapshot_index - 1 in
    let short : List LogEntry = take k l.entries in
    ground (
      arith,
      offset_lem l i,
      length-take k l.entries,
      back_index-Contiguous l.snapshot_index short
          (Contiguous-take (suc l.snapshot_index) k l.entries v.contiguous),
      truncated-IsValid l i v,
      validate_invariants_complete
          (record l { entries = short; stable_index = min l.stable_index (i - 1) }),
    )

-- On a log that satisfies the invariant and an index that is a 64-bit word, a successful
-- `TruncateSuffix` leaves the entries below the index, the smaller of the stable index and the
-- index before it as the stable index, and the invariant, and the index was above the commit index
-- and at most one past the last; a failing call has changed nothing, and the index was committed
-- or too high, or the log fills the index range.
pub truncate_suffix-Truncates :
    (l : RaftLog) (i : ℕ) → IsValid l → i < u64_mod → Truncates l i (truncate_suffix i l)
unfolding truncate_suffix
truncate_suffix-Truncates l i v h = ground (
  arith,
  last_index-IsValid l v,
  cut_suffix_lem l i v,
  take-length (i - l.snapshot_index - 1) l.entries,
  truncated-IsValid l i v,
)

-- How the three calls that move a mark forward may end.
abbrev pub Advances :
    (RaftLog → ℕ)
    → (RaftLog → ℕ)
    → (RaftLog → ℕ → RaftLog)
    → RaftLog
    → ℕ
    → Result ⊤ × RaftLog
    → Type 0
Advances mark limit moved l i (ok _, l') =
    (mark l ≤ i) × (i ≤ limit l) × (l' ≡ moved l i) × IsValid l'
Advances mark limit moved l i (err _, l') = (l' ≡ l) × ((i < mark l) ⊎ (limit l < i))

-- On a log that satisfies the invariant, a successful `AdvanceStableTo` sets the stable index and
-- nothing else and keeps the invariant, the index being from the stable index to the last index; a
-- failing one changes nothing, the index being outside that range.
pub advance_stable_to-Advances :
    (l : RaftLog) (i : ℕ)
    → IsValid l
    → Advances
        (λ k. k.stable_index)
        last
        (λ k j. record k { stable_index = j })
        l
        i
        (advance_stable_to i l)
unfolding advance_stable_to
advance_stable_to-Advances l i v =
    ground
      (arith, last_index-IsValid l v, validate_invariants_complete (record l { stable_index = i }))

-- On a log that satisfies the invariant, a successful `AdvanceCommitTo` sets the commit index and
-- nothing else and keeps the invariant, the index being from the commit index to the last index; a
-- failing one changes nothing, the index being outside that range.
pub advance_commit_to-Advances :
    (l : RaftLog) (i : ℕ)
    → IsValid l
    → Advances
        (λ k. k.commit_index)
        last
        (λ k j. record k { commit_index = j })
        l
        i
        (advance_commit_to i l)
unfolding advance_commit_to
advance_commit_to-Advances l i v =
    ground
      (arith, last_index-IsValid l v, validate_invariants_complete (record l { commit_index = i }))

-- On a log that satisfies the invariant, a successful `AdvanceAppliedTo` sets the applied index
-- and nothing else and keeps the invariant, the index being from the applied index to the commit
-- index; a failing one changes nothing, the index being outside that range.
pub advance_applied_to-Advances :
    (l : RaftLog) (i : ℕ)
    → IsValid l
    → Advances
        (λ k. k.applied_index)
        (λ k. k.commit_index)
        (λ k j. record k { applied_index = j })
        l
        i
        (advance_applied_to i l)
unfolding advance_applied_to
advance_applied_to-Advances l i v =
    ground
      (arith, last_index-IsValid l v, validate_invariants_complete (record l { applied_index = i }))
