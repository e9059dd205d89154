-- ===== src/Raft/Log/Reads.antt =====
-- The reads of a `RaftLog` against an abstract log, a partial function from indexes to entries.
use cqupt_block_storage.Base.{
  ℕ, zero, suc, ◌+◌, ◌-◌, ◌≤◌, ◌<◌, ◌≡◌, refl, List, [], ◌∷◌, Option, none, some, arith, ltb, ◌==◌,
  if◌then◌else◌, length, get_elem?, get_elem?-some, get_elem?-none, get_elem?-drop, get_elem?-take,
  length-take, length-drop, take, drop, u64_mod,
}
use cqupt_block_storage.Common.Status.{Result, ok, err, not_found, undefined, at}
use cqupt_block_storage.Raft.Types.{LogEntry}
use cqupt_block_storage.Raft.Log.{RaftLog, get_entry, get_term, get_entries}
use cqupt_block_storage.Raft.Log.Invariant.{
  last, offset_lem, IsValid, last_index-IsValid, Contiguous-get_elem?,
}

-- The abstract log: the entry that is kept under an index.
unfoldable pub entry_at : RaftLog → ℕ → Option LogEntry
entry_at l i =
    if ltb l.snapshot_index i then get_elem? l.entries (i - l.snapshot_index - 1) else none

abbrev pub or_not_found {ℓ} : {A : Type ℓ} → Option A → Result A
or_not_found none = err not_found
or_not_found (some a) = ok a

abbrev or_undefined {ℓ} : {A : Type ℓ} → Option A → Result A
or_undefined none = err undefined
or_undefined (some a) = ok a

at-get_elem? {ℓ} : {A : Type ℓ} (xs : List A) (i : ℕ) → at xs i ≡ or_undefined (get_elem? xs i)
at-get_elem? [] i = refl
at-get_elem? (x ∷ xs) zero = refl
at-get_elem? (x ∷ xs) (suc i) = at-get_elem? xs i

-- Between the boundary and the last index there is an entry, under its own index.
pub entry_at-some :
    (l : RaftLog) (i : ℕ)
    → IsValid l
    → l.snapshot_index < i
    → i ≤ last l
    → (e : LogEntry) × (entry_at l i ≡ some e) × (e.index ≡ i) × (0 < e.term)
unfolding entry_at
entry_at-some l i v p q =
    let (e, found) = get_elem?-some l.entries (i - l.snapshot_index - 1) (omega arith) in
    let known =
      Contiguous-get_elem? (suc l.snapshot_index) (i - l.snapshot_index - 1) l.entries e
        v.contiguous found in
    (e, ground arith, omega (arith, known), omega (arith, known))

pub entry_at-none : (l : RaftLog) (i : ℕ) → last l < i → entry_at l i ≡ none
unfolding entry_at
entry_at-none l i h = ground (arith, get_elem?-none l.entries (i - l.snapshot_index - 1))

-- On a log that satisfies the invariant and an index that is a 64-bit word, `GetEntry` returns the
-- entry that the log keeps under the index, and not found where there is none; it never reads
-- outside the vector.
pub get_entry-entry_at :
    (l : RaftLog) (i : ℕ) → IsValid l → i < u64_mod → get_entry l i ≡ or_not_found (entry_at l i)
unfolding get_entry entry_at
get_entry-entry_at l i v h = ground (
  arith,
  last_index-IsValid l v,
  offset_lem l i,
  at-get_elem? l.entries (i - l.snapshot_index - 1),
  get_elem?-some l.entries (i - l.snapshot_index - 1),
  get_elem?-none l.entries (i - l.snapshot_index - 1),
)

-- The term that a log has at an index: 0 before the first entry, and the boundary's own term.
abbrev pub term_at : RaftLog → ℕ → Option ℕ
term_at l i =
    if i == 0
    then some 0
    else if i == l.snapshot_index
    then some l.snapshot_term
    else elim (entry_at l i) [ none ↦ none | some e ↦ some e.term ]

pub term_at_inside :
    (l : RaftLog) (i : ℕ)
    → IsValid l
    → l.snapshot_index < i
    → i ≤ last l
    → (t : ℕ) × (term_at l i ≡ some t) × (0 < t)
term_at_inside l i v p q =
    let (e, found, _, pos) = entry_at-some l i v p q in (e.term, ground arith, pos)

-- On a log that satisfies the invariant and an index that is a 64-bit word, `GetTerm` returns 0 at
-- index 0, the boundary's term at the boundary, the term of the entry that the log keeps under the
-- index where there is one, and not found elsewhere; it never reads outside the vector.
pub get_term-term_at :
    (l : RaftLog) (i : ℕ) → IsValid l → i < u64_mod → get_term l i ≡ or_not_found (term_at l i)
unfolding get_term entry_at
get_term-term_at l i v h = ground (
  arith,
  last_index-IsValid l v,
  offset_lem l i,
  at-get_elem? l.entries (i - l.snapshot_index - 1),
  get_elem?-some l.entries (i - l.snapshot_index - 1),
  get_elem?-none l.entries (i - l.snapshot_index - 1),
)

-- The slice of the vector that a range of indexes selects.
slice : RaftLog → ℕ → ℕ → List LogEntry
slice l begin end = take (end - begin) (drop (begin - l.snapshot_index - 1) l.entries)

get_entries-slice :
    (l : RaftLog) (begin end : ℕ)
    → IsValid l
    → suc (last l) < u64_mod
    → l.snapshot_index < begin
    → begin ≤ end
    → end ≤ suc (last l)
    → get_entries l begin end ≡ ok (slice l begin end)
unfolding get_entries slice
get_entries-slice l begin end v w p q r =
    let same : end - l.snapshot_index - 1 - (begin - l.snapshot_index - 1) ≡ end - begin =
      omega arith in
    ground (arith, last_index-IsValid l v, offset_lem l begin, offset_lem l end)

-- On a log that satisfies the invariant and does not fill the index range, for a begin above the
-- boundary and an end that is at least the begin and at most one past the last index, `GetEntries`
-- succeeds with as many entries as the range is long, the k-th being the one that the log keeps at
-- begin + k.
pub get_entries-entry_at :
    (l : RaftLog) (begin end : ℕ)
    → IsValid l
    → suc (last l) < u64_mod
    → l.snapshot_index < begin
    → begin ≤ end
    → end ≤ suc (last l)
    → (es : List LogEntry) × (get_entries l begin end ≡ ok es)
      × (length es ≡ end - begin)
      × ((k : ℕ) → k < end - begin → get_elem? es k ≡ entry_at l (begin + k))
unfolding slice entry_at
get_entries-entry_at l begin end v w p q r =
    let skip : ℕ = begin - l.snapshot_index - 1 in
    (
      slice l begin end,
      get_entries-slice l begin end v w p q r,
      omega (arith, length-take (end - begin) (drop skip l.entries), length-drop skip l.entries),
      λ k h. ground (
        arith,
        get_elem?-take (end - begin) (drop skip l.entries) k,
        get_elem?-drop skip l.entries k (begin + k - l.snapshot_index - 1),
      ),
    )
