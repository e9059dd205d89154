-- ===== src/Raft/Core/Safety/Merged.antt =====
-- A log whose end is replaced by entries of a list.
use cqupt_block_storage.Base.{
  ℕ, zero, suc, ◌+◌, ◌-◌, ◌≤◌, ◌<◌, ◌≡◌, refl, sym, subst, ◌∙◌, List, [], ◌∷◌, ◌++◌, some, arith,
  length, length-take, get_elem?, get_elem?-append_left, get_elem?-take, get_elem?-drop,
  drop-append, take, drop, min,
}
use native.Mathlib.Decide.{dec_lt}
use cqupt_block_storage.Raft.Types.{LogEntry}
use cqupt_block_storage.Raft.Log.{RaftLog}
use cqupt_block_storage.Raft.Log.Invariant.{last, Contiguous, Contiguous-take}
use cqupt_block_storage.Raft.Log.Reads.{entry_at, term_at}
use cqupt_block_storage.Raft.Log.Conflict.{Agrees}

-- The log once the entries from the index `i` on are those from the `k`-th of a list on.
abbrev pub merged : ℕ → ℕ → List LogEntry → RaftLog → RaftLog
merged i k es l = record l {
  entries = take (i - l.snapshot_index - 1) l.entries ++ drop k es;
  stable_index = min l.stable_index (i - 1);
}

Agrees-intro :
    (l : RaftLog) (n : ℕ) (es : List LogEntry)
    → Contiguous n es
    → ((j : ℕ) (e : LogEntry) → get_elem? es j ≡ some e → term_at l (n + j) ≡ some e.term)
    → Agrees l es
Agrees-intro l n [] c h = tt
Agrees-intro l n (e ∷ es) (i, _, c) h =
    let first : n + 0 ≡ e.index = omega (arith, i) in
    (
      subst (λ x. term_at l x ≡ some e.term) first (h 0 e refl),
      Agrees-intro l (suc n) es c λ j x found.
          let next : n + suc j ≡ suc n + j = omega arith in
          subst (λ y. term_at l y ≡ some x.term) next (h (suc j) x found),
    )

Agrees-elim :
    (l : RaftLog) (n j : ℕ) (es : List LogEntry) (e : LogEntry)
    → Contiguous n es
    → Agrees l es
    → get_elem? es j ≡ some e
    → term_at l (n + j) ≡ some e.term
Agrees-elim l n j [] e c a h = absurd (ground (arith, h))
Agrees-elim l n zero (x ∷ es) e (i, _, c) (a, _) h =
    let first : x.index ≡ n + 0 = omega (arith, i) in
    let same : x ≡ e = ground (arith, h) in
    subst (λ y. term_at l (n + 0) ≡ some y.term) same
      (subst (λ y. term_at l y ≡ some x.term) first a)
Agrees-elim l n (suc j) (x ∷ es) e (i, _, c) (_, a) h =
    let next : suc n + j ≡ n + suc j = omega arith in
    subst (λ y. term_at l y ≡ some e.term) next (Agrees-elim l (suc n) j es e c a h)

-- Below the index nothing changes, and from it on stand the entries of the list.
merged-below :
    (l : RaftLog) (i j k : ℕ) (es : List LogEntry)
    → l.snapshot_index < j
    → j < i
    → i ≤ suc (last l)
    → entry_at (merged i k es l) j ≡ entry_at l j
unfolding entry_at
merged-below l i j k es above below inside =
    let front = take (i - l.snapshot_index - 1) l.entries in
    ground (
      arith,
      length-take (i - l.snapshot_index - 1) l.entries,
      get_elem?-append_left front (drop k es) (j - l.snapshot_index - 1),
      get_elem?-take (i - l.snapshot_index - 1) l.entries (j - l.snapshot_index - 1),
    )

get_elem?-append_right :
    (xs ys : List LogEntry) (j : ℕ) → get_elem? (xs ++ ys) (length xs + j) ≡ get_elem? ys j
get_elem?-append_right xs ys j =
    ground (arith, get_elem?-drop (length xs) (xs ++ ys) j (length xs + j), drop-append xs ys)

merged-above :
    (l : RaftLog) (i j k : ℕ) (es : List LogEntry)
    → l.snapshot_index < i
    → i ≤ suc (last l)
    → entry_at (merged i k es l) (i + j) ≡ get_elem? es (k + j)
unfolding entry_at
merged-above l i j k es above inside =
    let front = take (i - l.snapshot_index - 1) l.entries in
    let place : i + j - l.snapshot_index - 1 ≡ length front + j =
      omega (arith, length-take (i - l.snapshot_index - 1) l.entries) in
    ground (arith, place, get_elem?-append_right front (drop k es) j, get_elem?-drop k es j (k + j))

term_same :
    (l' l : RaftLog) (i t : ℕ)
    → l'.snapshot_index ≡ l.snapshot_index
    → l'.snapshot_term ≡ l.snapshot_term
    → entry_at l' i ≡ entry_at l i
    → term_at l i ≡ some t
    → term_at l' i ≡ some t
term_same l' l i t a b e h = ground (arith, a, b, e, h)

term_of :
    (l : RaftLog) (i : ℕ) (e : LogEntry)
    → l.snapshot_index < i
    → entry_at l i ≡ some e
    → term_at l i ≡ some e.term
term_of l i e above h = ground (arith, h)

-- Where the first `k` entries agree, all of them agree with the merged log.
pub merged-Agrees :
    (l : RaftLog) (n i k : ℕ) (es : List LogEntry)
    → Contiguous n es
    → l.snapshot_index < n
    → i ≡ n + k
    → i ≤ suc (last l)
    → Agrees l (take k es)
    → Agrees (merged i k es l) es
merged-Agrees l n i k es c above place inside agree =
    Agrees-intro (merged i k es l) n es c λ j e found. elim (dec_lt j k) [
      | yes before ↦
          let known =
            Agrees-elim l n j (take k es) e (Contiguous-take n k es c) agree
              (get_elem?-take k es j before ∙ found) in
          let same = merged-below l i (n + j) k es (omega arith) (omega arith) inside in
          term_same (merged i k es l) l (n + j) e.term refl refl same known
      | no after ↦
          let there : i + (j - k) ≡ n + j = omega arith in
          let from : k + (j - k) ≡ j = omega arith in
          let known : entry_at (merged i k es l) (n + j) ≡ some e =
            subst (λ x. entry_at (merged i k es l) x ≡ some e) there
              (merged-above l i (j - k) k es (omega arith) inside
                ∙ subst (λ x. get_elem? es x ≡ some e) (sym from) found) in
          term_of (merged i k es l) (n + j) e (omega arith) known
    ]
