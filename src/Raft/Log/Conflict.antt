-- ===== src/Raft/Log/Conflict.antt =====
-- `FindConflict`: the first place at which incoming entries and the log part.
use cqupt_block_storage.Base.{
  ℕ, true, false, suc, ◌+◌, ◌≤◌, ◌<◌, ◌≡◌, ◌≢◌, refl, List, [], ◌∷◌, some, arith, ◌==◌,
  if◌then◌else◌, get_elem?, take, u64_mod,
}
use cqupt_block_storage.Common.Status.{Result, ok, err, ⊤}
use cqupt_block_storage.Raft.Types.{LogEntry, ConflictType, ConflictResult}
use cqupt_block_storage.Raft.Log.{RaftLog, find_conflict_from, find_conflict}
use cqupt_block_storage.Raft.Log.Invariant.{
  last, Continues, IsValid, last_index-IsValid, validate_entries_iff,
}
use cqupt_block_storage.Raft.Log.Reads.{term_at, term_at_inside, get_term-term_at}
use native.Mathlib.Decide.{dec_lt, ℕ_discrete}

-- The log has the term of each entry under the entry's index.
abbrev pub Agrees : RaftLog → List LogEntry → Type 0
Agrees l [] = ⊤
Agrees l (e ∷ es) = (term_at l e.index ≡ some e.term) × Agrees l es

-- What an answer about entries from index n on says: all of them agree with the log; or the first
-- k agree, and the next one, under index `i`, has another term there or lies beyond the log.
abbrev pub FoundBy : RaftLog → ℕ → List LogEntry → ConflictType → ℕ → Type 0
FoundBy l n es ConflictType.none i = Agrees l es
FoundBy l n es ConflictType.conflict i =
    (k : ℕ) × (e : LogEntry) × (i ≡ n + k)
    × (get_elem? es k ≡ some e)
    × Agrees l (take k es)
    × (i ≤ last l)
    × (term_at l i ≢ some e.term)
FoundBy l n es ConflictType.append i =
    (k : ℕ) × (e : LogEntry) × (i ≡ n + k)
    × (get_elem? es k ≡ some e)
    × Agrees l (take k es)
    × (last l < i)

abbrev pub Finds : RaftLog → ℕ → List LogEntry → Result ConflictResult → Type 0
Finds l n es (ok r) = Continues l n es × FoundBy l n es r.type r.index
Finds l n es (err c) = ¬ Continues l n es

-- One more agreeing entry in front.
FoundBy-cons :
    (l : RaftLog) (n i : ℕ) (e : LogEntry) (es : List LogEntry) (c : ConflictType)
    → term_at l e.index ≡ some e.term
    → FoundBy l (suc n) es c i
    → FoundBy l n (e ∷ es) c i
FoundBy-cons l n i e es ConflictType.none h f = (h, f)
FoundBy-cons l n i e es ConflictType.conflict h (k, x, at_k, found, agree, p, q) =
    (suc k, x, omega arith, found, (h, agree), p, q)
FoundBy-cons l n i e es ConflictType.append h (k, x, at_k, found, agree, p) =
    (suc k, x, omega arith, found, (h, agree), p)

abbrev FindsFrom : RaftLog → ℕ → List LogEntry → Result ConflictResult → Type 0
FindsFrom l n es (ok r) = FoundBy l n es r.type r.index
FindsFrom l n es (err c) = ⊥

FindsFrom-cons :
    (l : RaftLog) (n : ℕ) (e : LogEntry) (es : List LogEntry) (r : Result ConflictResult)
    → term_at l e.index ≡ some e.term
    → FindsFrom l (suc n) es r
    → FindsFrom l n (e ∷ es) r
FindsFrom-cons l n e es (ok r) h f = FoundBy-cons l n r.index e es r.type h f
FindsFrom-cons l n e es (err c) h f = f

module _ (l : RaftLog) (e : LogEntry) (es : List LogEntry) (v : IsValid l)
    (p : l.snapshot_index < e.index) where
  beyond :
      last l < e.index
      → find_conflict_from l (e ∷ es) ≡ ok (record { type = ConflictType.append; index = e.index })
  unfolding find_conflict_from
  beyond q = ground (arith, last_index-IsValid l v)

  inside :
      (t : ℕ)
      → e.index ≤ last l
      → term_at l e.index ≡ some t
      → find_conflict_from l (e ∷ es) ≡ (
          if t == e.term
          then find_conflict_from l es
          else ok (record { type = ConflictType.conflict; index = e.index }))
  unfolding find_conflict_from
  inside t q known = ground (arith, last_index-IsValid l v, get_term-term_at l e.index v)

find_conflict_from-FindsFrom :
    (l : RaftLog) (n : ℕ) (es : List LogEntry)
    → IsValid l
    → Continues l n es
    → FindsFrom l n es (find_conflict_from l es)
unfolding find_conflict_from
find_conflict_from-FindsFrom l n [] v c = tt
find_conflict_from-FindsFrom l n (e ∷ es) v c = elim (dec_lt (last l) e.index) [
  | yes q ↦ rw (beyond l e es v (omega arith) q) (0, e, omega arith, refl, tt, q)
  | no q ↦
      let (t, known, _) = term_at_inside l e.index v (omega arith) (omega arith) in
      rw (inside l e es v (omega arith) t (omega arith) known) elim (ℕ_discrete t e.term) [
        | yes same ↦
            let test : (t == e.term) ≡ true = ground arith in
            rw test (
              FindsFrom-cons l n e es _ (ground arith)
                (find_conflict_from-FindsFrom l (suc n) es v (ground arith)))
        | no differs ↦
            let test : (t == e.term) ≡ false = ground arith in
            rw test (0, e, omega arith, refl, tt, omega arith, ground arith)
      ]
]

-- On a log that satisfies the invariant and entries that are not empty and whose first index is a
-- 64-bit word, `FindConflict` fails exactly where the entries have a gap, a term 0, an index at or
-- below the boundary or one beyond 64 bits; else it answers none where all terms agree with the
-- log, and otherwise the index of the first entry that has another term in the log (conflict) or
-- lies beyond the last index (append), the entries before it agreeing.
pub find_conflict-Finds :
    (l : RaftLog) (e : LogEntry) (es : List LogEntry)
    → IsValid l
    → e.index < u64_mod
    → Finds l e.index (e ∷ es) (find_conflict l (e ∷ es))
unfolding find_conflict
find_conflict-Finds l e es v h =
    ground (
      arith,
      validate_entries_iff l e.index e es,
      find_conflict_from-FindsFrom l e.index (e ∷ es) v,
    )
