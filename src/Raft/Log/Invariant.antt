-- ===== src/Raft/Log/Invariant.antt =====
-- The invariant of `RaftLog` between two calls, and what the code's own checks decide.
use cqupt_block_storage.Base.{
  ℕ, zero, suc, ◌+◌, ◌-◌, ◌%◌, ◌≤◌, ◌<◌, ◌≡◌, refl, ◌⊎◌, inl, List, [], ◌∷◌, ◌++◌, arith, ◌↔◌,
  subst, length, take, drop, get_elem?, some, u64_mod, inc_u64, add_u64,
}
use cqupt_block_storage.Common.Status.{ok, ⊤}
use cqupt_block_storage.Raft.Types.{LogEntry}
use cqupt_block_storage.Raft.Log.{
  RaftLog, offset, back_index, last_index, validate_from, validate_stored, validate_entries,
  validate_invariants, empty_log,
}

-- The entries carry the indexes n, n + 1, … and positive terms.
abbrev pub Contiguous : ℕ → List LogEntry → Type 0
Contiguous n [] = ⊤
Contiguous n (e ∷ es) = (e.index ≡ n) × (0 < e.term) × Contiguous (suc n) es

-- The last index, as a number.
abbrev pub last : RaftLog → ℕ
last l = l.snapshot_index + length l.entries

pub record IsValid (l : RaftLog) : Type 0 where
  pub contiguous : Contiguous (suc l.snapshot_index) l.entries
  pub in_range : l.snapshot_index + length l.entries < u64_mod
  pub boundary_term_zero : l.snapshot_index ≡ 0 → l.snapshot_term ≡ 0
  pub boundary_term_pos : 0 < l.snapshot_index → 0 < l.snapshot_term
  pub snapshot-le-applied : l.snapshot_index ≤ l.applied_index
  pub applied-le-commit : l.applied_index ≤ l.commit_index
  pub commit-le-last : l.commit_index ≤ l.snapshot_index + length l.entries
  pub snapshot-le-stable : l.snapshot_index ≤ l.stable_index
  pub stable-le-last : l.stable_index ≤ l.snapshot_index + length l.entries

pub empty_log-IsValid : IsValid empty_log
empty_log-IsValid = omega arith

pub back_index-Contiguous :
    (d : ℕ) (es : List LogEntry) → Contiguous (suc d) es → back_index d es ≡ d + length es
back_index-Contiguous d [] c = omega arith
back_index-Contiguous d (e ∷ es) c = ground (arith, back_index-Contiguous (suc d) es c.2)

pub last_index-IsValid :
    (l : RaftLog) → IsValid l → last_index l ≡ l.snapshot_index + length l.entries
unfolding last_index
last_index-IsValid l v = back_index-Contiguous l.snapshot_index l.entries v.contiguous

validate_stored_complete :
    (n m : ℕ) (es : List LogEntry)
    → Contiguous n es
    → n + length es ≤ u64_mod
    → m ≡ n % u64_mod
    → validate_stored m es ≡ ok tt
unfolding validate_stored
validate_stored_complete n m [] c h e = refl
validate_stored_complete n m (x ∷ es) c h e =
    ground (arith, validate_stored_complete (suc n) (inc_u64 m) es c.2)

-- The invariant is all that `ValidateInvariants` asks for.
pub validate_invariants_complete : (l : RaftLog) → IsValid l → validate_invariants l ≡ ok tt
unfolding validate_invariants
validate_invariants_complete l v = ground (
  arith,
  back_index-Contiguous l.snapshot_index l.entries v.contiguous,
  validate_stored_complete (suc l.snapshot_index) (inc_u64 l.snapshot_index) l.entries v.contiguous,
)

Contiguous-nil : (n : ℕ) (es : List LogEntry) → length es ≡ 0 → Contiguous n es
Contiguous-nil n [] h = tt
Contiguous-nil n (e ∷ es) h = absurd (omega arith)

-- What the loop of `ValidateEntries` lets through has no gap and does not wrap.
validate_from_sound :
    (l : RaftLog) (start i n : ℕ) (es : List LogEntry)
    → n ≡ add_u64 start i
    → validate_from l start i es ≡ ok tt
    → Contiguous n es × (n + length es ≤ u64_mod) × ((length es ≡ 0) ⊎ (l.snapshot_index < n))
unfolding validate_from
validate_from_sound l start i n [] e h = (tt, omega arith, inl refl)
validate_from_sound l start i n (x ∷ es) e h = ground (
  arith,
  validate_from_sound l start (i + 1) (add_u64 start (i + 1)) es refl,
  Contiguous-nil (suc n) es,
)

validate_from_complete :
    (l : RaftLog) (start i n : ℕ) (es : List LogEntry)
    → n ≡ add_u64 start i
    → Contiguous n es
    → l.snapshot_index < n
    → n + length es ≤ u64_mod
    → validate_from l start i es ≡ ok tt
unfolding validate_from
validate_from_complete l start i n [] e c p h = refl
validate_from_complete l start i n (x ∷ []) e c p h = ground arith
validate_from_complete l start i n (x ∷ y ∷ es) e c p h =
    ground (arith, validate_from_complete l start (i + 1) (suc n) (y ∷ es))

-- Entries that continue a log: no gap, positive terms, and no index that a word cannot hold.
abbrev pub Continues : RaftLog → ℕ → List LogEntry → Type 0
Continues l n es = Contiguous n es × (l.snapshot_index < n) × (n + length es ≤ u64_mod)

-- For entries that are not empty and a start that is a 64-bit word, `ValidateEntries` accepts
-- exactly the entries that carry the indexes from the start on without a gap, with positive terms,
-- above the boundary and within 64 bits.
pub validate_entries_iff :
    (l : RaftLog) (n : ℕ) (e : LogEntry) (es : List LogEntry)
    → n < u64_mod
    → (validate_entries l (e ∷ es) n ≡ ok tt) ↔ Continues l n (e ∷ es)
unfolding validate_entries
validate_entries_iff l n e es h = (
  ground (arith, validate_from_sound l n 0 n (e ∷ es)),
  ground (arith, validate_from_complete l n 0 n (e ∷ es)),
)

pub offset_lem :
    (l : RaftLog) (i : ℕ)
    → l.snapshot_index < i
    → i < u64_mod
    → offset l i ≡ i - l.snapshot_index - 1
unfolding offset
offset_lem l i p q = omega arith

pub Contiguous-append :
    (n m : ℕ) (xs ys : List LogEntry)
    → m ≡ n + length xs
    → Contiguous n xs
    → Contiguous m ys
    → Contiguous n (xs ++ ys)
Contiguous-append n m [] ys e p q =
    let same : m ≡ n = omega arith in subst (λ k. Contiguous k ys) same q
Contiguous-append n m (x ∷ xs) ys e p q =
    (p.0, p.1, Contiguous-append (suc n) m xs ys (omega arith) p.2 q)

pub Contiguous-take : (n k : ℕ) (xs : List LogEntry) → Contiguous n xs → Contiguous n (take k xs)
Contiguous-take n zero xs c = tt
Contiguous-take n (suc k) [] c = tt
Contiguous-take n (suc k) (x ∷ xs) c = (c.0, c.1, Contiguous-take (suc n) k xs c.2)

pub Contiguous-drop :
    (n k m : ℕ) (xs : List LogEntry) → m ≡ n + k → Contiguous n xs → Contiguous m (drop k xs)
Contiguous-drop n zero m xs e c =
    let same : n ≡ m = omega arith in subst (λ j. Contiguous j xs) same c
Contiguous-drop n (suc k) m [] e c = tt
Contiguous-drop n (suc k) m (x ∷ xs) e c = Contiguous-drop (suc n) k m xs (omega arith) c.2

-- The entry at a place carries the index of that place and a positive term.
pub Contiguous-get_elem? :
    (n i : ℕ) (xs : List LogEntry) (e : LogEntry)
    → Contiguous n xs
    → get_elem? xs i ≡ some e
    → (e.index ≡ n + i) × (0 < e.term)
Contiguous-get_elem? n i [] e c h = cc
Contiguous-get_elem? n zero (x ∷ xs) e c h = ground arith
Contiguous-get_elem? n (suc i) (x ∷ xs) e c h =
    ground (arith, Contiguous-get_elem? (suc n) i xs e c.2 h)
