-- ===== src/Raft/Core/Safety/Entries.antt =====
-- What the entries of an `AppendEntries` request leave in the log.
use cqupt_block_storage.Base.{
  ℕ, suc, ◌+◌, ◌-◌, ◌≤◌, ◌<◌, ◌≡◌, ◌≢◌, refl, sym, subst, ap, ◌∙◌, ◌↔◌, ◌⊎◌, inl, inr, List, [],
  ◌∷◌, ◌++◌, some, arith, length, length-take, length-drop, get_elem?, get_elem?-none,
  get_elem?-drop, take, drop, min, take-length, u64_mod, sub_u64,
}
use native.Mathlib.Decide.{dec_lt}
use cqupt_block_storage.Common.Action.{◌>>◌}
use cqupt_block_storage.Common.Status.{Result, ok, err, ⊤}
use cqupt_block_storage.Raft.Types.{LogEntry, ConflictType, ConflictResult}
use cqupt_block_storage.Raft.Log.{RaftLog, find_conflict, truncate_suffix, append}
use cqupt_block_storage.Raft.Log.Invariant.{last, Contiguous, Contiguous-drop, Continues, IsValid}
use cqupt_block_storage.Raft.Log.Reads.{term_at, entry_at-none}
use cqupt_block_storage.Raft.Log.Updates.{
  Appends, Truncates, append-Appends, truncate_suffix-Truncates,
}
use cqupt_block_storage.Raft.Log.Conflict.{Agrees, Finds, FoundBy, find_conflict-Finds}
use cqupt_block_storage.Raft.Core.Replication.{merge_entries, store_entries}
use cqupt_block_storage.Raft.Core.Safety.Merged.{merged, merged-Agrees}

-- How storing the entries from the `k`-th on, under index `i`, may end.
abbrev pub Ends : RaftLog → ℕ → ℕ → List LogEntry → Result ⊤ × RaftLog → Type 0
Ends l i k es (ok _, l') =
    (l.commit_index < i) × (i ≤ suc (last l)) × (l' ≡ merged i k es l) × IsValid l'
Ends l i k es (err _, l') =
    (l' ≡ l) × ((i ≤ l.commit_index) ⊎ (suc (last l) < i) ⊎ (suc (last l) ≡ u64_mod))

truncated-Ends :
    (l l1 : RaftLog) (i k : ℕ) (es : List LogEntry) (o : Result ⊤ × RaftLog)
    → l.commit_index < i
    → i ≤ suc (last l)
    → l1 ≡ record l {
      entries = take (i - l.snapshot_index - 1) l.entries;
      stable_index = min l.stable_index (i - 1);
    }
    → Continues l1 (suc (last l1)) (drop k es)
    → Appends l1 (drop k es) o
    → Ends l i k es o
truncated-Ends l l1 i k es (ok _, l2) above inside cut c (_, e, v) = (
  above,
  inside,
  e ∙ ap {A = RaftLog} (λ x. record x { entries = x.entries ++ drop k es }) cut,
  v,
)
truncated-Ends l l1 i k es (err _, l2) above inside cut c (_, no_way) = absurd (no_way c)

appended-Ends :
    (l : RaftLog) (i k : ℕ) (es : List LogEntry) (o : Result ⊤ × RaftLog)
    → IsValid l
    → last l < i
    → (Continues l (suc (last l)) (drop k es) ↔ (i ≡ suc (last l)))
    → Appends l (drop k es) o
    → Ends l i k es o
appended-Ends l i k es (ok _, l') v beyond c (d, e, v') =
    let place : i ≡ suc (last l) = c.0 d in
    let whole : take (i - l.snapshot_index - 1) l.entries ≡ l.entries =
      take-length (i - l.snapshot_index - 1) l.entries (omega (arith, place)) in
    let marks : min l.stable_index (i - 1) ≡ l.stable_index =
      omega (arith, place, v.stable-le-last) in
    (
      omega (arith, beyond, v.commit-le-last),
      omega (arith, place),
      e ∙ sym (rw (whole, marks) refl),
      v',
    )
appended-Ends l i k es (err _, l') v beyond c (e, no_way) = (
  e,
  inr (
      inl (elim (dec_lt (suc (last l)) i) [
        | yes gap ↦ gap
        | no near ↦ absurd (no_way (c.1 (omega arith)))
      ])),
)

conflict-Ends :
    (l : RaftLog) (n i k : ℕ) (es : List LogEntry)
    → IsValid l
    → Continues l n es
    → i ≡ n + k
    → k < length es
    → i ≤ last l
    → Ends l i k es ((truncate_suffix i >> append (drop k es)) l)
conflict-Ends l n i k es v (c, above, fits) place short inside =
    go (truncate_suffix i l) (truncate_suffix-Truncates l i v (omega (arith, v.in_range)))
  where
    go :
        (o : Result ⊤ × RaftLog)
        → Truncates l i o
        → Ends l i k es (◌>>◌ {B = ⊤} (λ (x : RaftLog). o) (append (drop k es)) l)
    go (ok a, l1) (over, near, cut, v1) =
        let kept = length-take (i - l.snapshot_index - 1) l.entries in
        let end : suc (last l1) ≡ i = ground (arith, cut, kept) in
        let boundary : l1.snapshot_index ≡ l.snapshot_index = ground (arith, cut) in
        truncated-Ends l l1 i k es (append (drop k es) l1) over near cut
          (
            Contiguous-drop n k (suc (last l1)) es (omega (arith, end)) c,
            omega arith,
            omega (arith, end, length-drop k es),
          )
          (append-Appends l1 (drop k es) v1)
    go (err a, l1) (same, why) = (same, why)

append-Ends :
    (l : RaftLog) (n i k : ℕ) (e : LogEntry) (es : List LogEntry)
    → IsValid l
    → Continues l n es
    → i ≡ n + k
    → get_elem? es k ≡ some e
    → k < length es
    → last l < i
    → Ends l i k es (append (drop k es) l)
append-Ends l n i k e es v (c, above, fits) place found short beyond =
    let cut = Contiguous-drop n k i es place c in
    let first = get_elem?-drop k es 0 k (omega arith) ∙ found in
    let size = length-drop k es in
    appended-Ends l i k es (append (drop k es) l) v beyond
      (
        λ (d, _, _). starts_once i (suc (last l)) (drop k es) e cut d first,
        λ same. (
          subst (λ x. Contiguous x (drop k es)) same cut,
          omega arith,
          omega (arith, same, size),
        ),
      )
      (append-Appends l (drop k es) v)
  where
    starts_once :
        (a b : ℕ) (xs : List LogEntry) (x : LogEntry)
        → Contiguous a xs
        → Contiguous b xs
        → get_elem? xs 0 ≡ some x
        → a ≡ b
    starts_once a b [] x p q h = absurd (ground (arith, h))
    starts_once a b (y ∷ xs) x p q h = sym p.0 ∙ q.0

-- The `k`-th entry is the first that the log does not have: it has another term or none there.
abbrev pub Differs : RaftLog → ℕ → List LogEntry → ℕ → LogEntry → Type 0
Differs l n es k e =
    (get_elem? es k ≡ some e) × Agrees l (take k es) × (term_at l (n + k) ≢ some e.term)

-- How storing entries from index `n` on may end.
abbrev pub Stores : RaftLog → ℕ → List LogEntry → Result ⊤ × RaftLog → Type 0
Stores l n es (ok _, l') =
    Continues l n es
    × Agrees l' es
    × IsValid l'
    × ((l' ≡ l)
        ⊎ ((k : ℕ) × (e : LogEntry) × Differs l n es k e
            × (l.commit_index < n + k)
            × (l' ≡ merged (n + k) k es l)))
Stores l n es (err _, l') =
    (l' ≡ l)
    × ((¬ Continues l n es)
        ⊎ ((k : ℕ) × (e : LogEntry) × Differs l n es k e
            × ((n + k ≤ l.commit_index) ⊎ (suc (last l) < n + k) ⊎ (suc (last l) ≡ u64_mod))))

Ends-Stores :
    (l : RaftLog) (n k : ℕ) (e : LogEntry) (es : List LogEntry) (o : Result ⊤ × RaftLog)
    → Continues l n es
    → Differs l n es k e
    → Ends l (n + k) k es o
    → Stores l n es o
Ends-Stores l n k e es (ok _, l') (c, above, fits) d (over, inside, same, v) =
    let agree = merged-Agrees l n (n + k) k es c above refl inside d.1 in
    ((c, above, fits), subst (λ x. Agrees x es) (sym same) agree, v, inr (k, e, d, over, same))
Ends-Stores l n k e es (err _, l') c d (same, why) = (same, inr (k, e, d, why))

get_elem?-short :
    (es : List LogEntry) (k : ℕ) (e : LogEntry) → get_elem? es k ≡ some e → k < length es
get_elem?-short es k e h = elim (dec_lt k (length es)) [
  | yes short ↦ short
  | no long ↦ absurd (ground (arith, h, get_elem?-none es k (omega arith)))
]

-- Beyond the last index there is no term.
term_beyond : (l : RaftLog) (i t : ℕ) → last l < i → term_at l i ≢ some t
term_beyond l i t h e = absurd (ground (arith, e, entry_at-none l i h))

merge_entries-Stores :
    (t : ConflictType) (i : ℕ) (x : LogEntry) (es : List LogEntry) (l : RaftLog)
    → IsValid l
    → Continues l x.index (x ∷ es)
    → FoundBy l x.index (x ∷ es) t i
    → Stores l x.index (x ∷ es) (merge_entries (record { type = t; index = i }) (x ∷ es) l)
unfolding merge_entries
merge_entries-Stores ConflictType.none i x es l v c agree = (c, agree, v, inl refl)
merge_entries-Stores ConflictType.conflict i x es l v c (k, e, place, found, agree, inside, d) =
    let short = get_elem?-short (x ∷ es) k e found in
    let from : sub_u64 i x.index ≡ k = omega (arith, place, short, c.2) in
    let other : term_at l (x.index + k) ≢ some e.term =
      subst (λ y. term_at l y ≢ some e.term) place d in
    rw from (
      Ends-Stores l x.index k e (x ∷ es) _ c (found, agree, other)
        (subst (λ y. Ends l y k (x ∷ es) ((truncate_suffix i >> append (drop k (x ∷ es))) l)) place
          (conflict-Ends l x.index i k (x ∷ es) v c place short inside)))
merge_entries-Stores ConflictType.append i x es l v c (k, e, place, found, agree, beyond) =
    let short = get_elem?-short (x ∷ es) k e found in
    let from : sub_u64 i x.index ≡ k = omega (arith, place, short, c.2) in
    rw from (
      Ends-Stores l x.index k e (x ∷ es) _ c
        (found, agree, term_beyond l (x.index + k) e.term (omega (arith, place, beyond)))
        (subst (λ y. Ends l y k (x ∷ es) (append (drop k (x ∷ es)) l)) place
          (append-Ends l x.index i k e (x ∷ es) v c place found short beyond)))

-- On a log that satisfies the invariant and for entries that are not empty and whose first index
-- is a 64-bit word: where what `HandleAppendEntries` does with them (conflict search, truncation
-- and append) succeeds, the entries have no gap, the log satisfies the invariant and has the term
-- of each entry under its index, and either it is unchanged, or the entries from the first on that
-- it did not have, which is above the commit index, stand in place of what stood there, and
-- nothing else but the stable index, cut back below them, has changed. Where it fails, the log is
-- unchanged, and the entries have a gap, a term 0, an index at or below the boundary or one beyond
-- 64 bits, or the first one that the log does not have is at or below the commit index or leaves a
-- gap behind the log, or the log fills the index range.
pub store_entries-Stores :
    (x : LogEntry) (es : List LogEntry) (l : RaftLog)
    → IsValid l
    → x.index < u64_mod
    → Stores l x.index (x ∷ es) (store_entries (x ∷ es) l)
unfolding store_entries
store_entries-Stores x es l v h = go (find_conflict l (x ∷ es)) (find_conflict-Finds l x es v h)
  where
    go :
        (r : Result ConflictResult)
        → Finds l x.index (x ∷ es) r
        → Stores l x.index (x ∷ es) (elim r as (λ _. Result ⊤ × RaftLog) [
          | ok a ↦ merge_entries a (x ∷ es) l
          | err c ↦ (err c, l)
        ])
    go (ok r) (c, f) = merge_entries-Stores r.type r.index x es l v c f
    go (err c) f = (refl, inl f)
