-- ===== src/Raft/MemoryStorage/Contiguous.antt =====
-- Entries whose indexes follow each other, and how each write of a storage keeps them so.
use cqupt_block_storage.Base.{
  ℕ, zero, suc, ◌+◌, ◌≤◌, ◌<◌, ◌≡◌, refl, sym, subst, ◌∙◌, List, [], ◌∷◌, ◌++◌, Option, none, some,
  inl, inr, ltb, leb, ◌==◌, if◌then◌else◌, take, length, All, u64_mod, arith, Bool-cases,
}
use cqupt_block_storage.Common.Status.{ok}
use cqupt_block_storage.Raft.Types.{LogEntry}
use cqupt_block_storage.Raft.MemoryStorage.{
  MemoryRaftStorage, last_index_of, last_log_index, validate_batch, entries_to_append,
  entries_above,
}

-- The first index is `n`, each further one is one above the one before, and all are 64-bit words.
abbrev pub Contiguous : ℕ → List LogEntry → Type 0
Contiguous n [] = Unit
Contiguous n (e ∷ es) = (e.index ≡ n) × (n < u64_mod) × Contiguous (suc n) es

-- the entry with an index
unfoldable pub lookup : ℕ → List LogEntry → Option LogEntry
lookup i [] = none
lookup i (e ∷ es) = if e.index == i then some e else lookup i es

pub lookup-append :
    (i : ℕ) (e : LogEntry) (xs ys : List LogEntry)
    → lookup i xs ≡ some e
    → lookup i (xs ++ ys) ≡ some e
unfolding lookup
lookup-append i e [] ys h = absurd (ground (arith, h))
lookup-append i e (x ∷ xs) ys h = ground (arith, h, lookup-append i e xs ys)

pub lookup-take :
    (i : ℕ) (e : LogEntry) (n k : ℕ) (xs : List LogEntry)
    → Contiguous n xs
    → i < n + k
    → lookup i xs ≡ some e
    → lookup i (take k xs) ≡ some e
unfolding lookup
lookup-take i e n k [] c b h = absurd (ground (arith, h))
lookup-take i e n zero (x ∷ xs) (p, q, c) b h =
    absurd (above i e n (x ∷ xs) (p, q, c) (omega (arith, b)) h)
  where
    above :
        (i : ℕ) (e : LogEntry) (n : ℕ) (xs : List LogEntry)
        → Contiguous n xs
        → i < n
        → lookup i xs ≡ some e
        → ⊥
    above i e n [] c b h = ground (arith, h)
    above i e n (x ∷ xs) (p, q, c) b h = ground (arith, p, b, h, above i e (suc n) xs c)
lookup-take i e n (suc k) (x ∷ xs) (p, q, c) b h =
    ground (arith, h, lookup-take i e (suc n) k xs c (omega (arith, b)))

pub lookup-entries_above :
    (i : ℕ) (e : LogEntry) (n : ℕ) (xs : List LogEntry)
    → n < i
    → lookup i xs ≡ some e
    → lookup i (entries_above n xs) ≡ some e
unfolding lookup entries_above
lookup-entries_above i e n [] b h = absurd (ground (arith, h))
lookup-entries_above i e n (x ∷ xs) b h = ground (arith, b, h, lookup-entries_above i e n xs b)

pub take-Contiguous : (k n : ℕ) (xs : List LogEntry) → Contiguous n xs → Contiguous n (take k xs)
take-Contiguous zero n xs c = tt
take-Contiguous (suc k) n [] c = tt
take-Contiguous (suc k) n (x ∷ xs) (p, q, c) = (p, q, take-Contiguous k (suc n) xs c)

pub entries_above-Contiguous :
    (i n : ℕ) (xs : List LogEntry)
    → n ≤ suc i
    → Contiguous n xs
    → Contiguous (suc i) (entries_above i xs)
unfolding entries_above
entries_above-Contiguous i n [] b c = tt
entries_above-Contiguous i n (x ∷ xs) b (p, q, c) = elim (Bool-cases (leb x.index i)) [
  | inl t ↦ rw t (entries_above-Contiguous i (suc n) xs (ground (arith, p, t)) c)
  | inr t ↦ rw t (
      let same : n ≡ suc i = ground (arith, p, t, b) in
      let all : entries_above i xs ≡ xs = keeps i (suc n) xs (omega (arith, same)) c in
      (
        p ∙ same,
        omega (arith, same, q),
        subst (Contiguous (suc (suc i))) (sym all) (subst (λ m. Contiguous (suc m) xs) same c),
      ))
]
  where
    keeps : (i n : ℕ) (xs : List LogEntry) → i < n → Contiguous n xs → entries_above i xs ≡ xs
    keeps i n [] b c = refl
    keeps i n (x ∷ xs) b (p, q, c) = ground (arith, p, b, keeps i (suc n) xs (omega (arith, b)) c)

-- What is contiguous from behind `n` ends that many places behind it.
pub last_index_of-Contiguous :
    (n : ℕ) (xs : List LogEntry) → Contiguous (suc n) xs → last_index_of n xs ≡ n + length xs
last_index_of-Contiguous n [] c = omega arith
last_index_of-Contiguous n (x ∷ xs) (p, q, c) =
    let rest = last_index_of-Contiguous (suc n) xs c in rw p (omega (arith, rest))

pub append-Contiguous :
    (n : ℕ) (xs ys : List LogEntry)
    → Contiguous (suc n) xs
    → Contiguous (suc (n + length xs)) ys
    → Contiguous (suc n) (xs ++ ys)
append-Contiguous n [] ys c d = subst (λ m. Contiguous (suc m) ys) (omega arith) d
append-Contiguous n (x ∷ xs) ys (p, q, c) d =
    (p, q, append-Contiguous (suc n) xs ys c (subst (λ m. Contiguous (suc m) ys) (omega arith) d))

-- A batch that is valid is contiguous from its first index.
validate_batch-Contiguous :
    (b p : ℕ) (es : List LogEntry)
    → p < u64_mod
    → All (λ e. e.index < u64_mod) es
    → validate_batch b (some p) es ≡ ok tt
    → Contiguous (suc p) es
unfolding validate_batch
validate_batch-Contiguous b p [] v w h = tt
validate_batch-Contiguous b p (e ∷ es) v (u, w) h =
    let next : (e.index ≡ suc p) × (suc p < u64_mod) = ground (arith, h, u, v) in
    (
      next.0,
      next.1,
      subst (λ m. Contiguous (suc m) es) next.0
          (validate_batch-Contiguous b e.index es u w (ground (arith, h))),
    )

pub batch-Contiguous :
    (b : ℕ) (e : LogEntry) (es : List LogEntry)
    → All (λ e. e.index < u64_mod) (e ∷ es)
    → validate_batch b none (e ∷ es) ≡ ok tt
    → (b < e.index) × Contiguous e.index (e ∷ es)
unfolding validate_batch
batch-Contiguous b e es (u, w) h =
    (ground (arith, h), (refl, u, validate_batch-Contiguous b e.index es u w (ground (arith, h))))

-- What is appended of a contiguous batch that starts inside the log or right behind it follows the log.
pub entries_to_append-Contiguous :
    (s : MemoryRaftStorage) (n : ℕ) (es added : List LogEntry)
    → Contiguous n es
    → n ≤ suc (last_log_index s)
    → entries_to_append s es ≡ ok added
    → Contiguous (suc (last_log_index s)) added
unfolding entries_to_append
entries_to_append-Contiguous s n [] added c b h =
    let same : [] ≡ added = ground (arith, h) in subst (Contiguous (suc (last_log_index s))) same tt
entries_to_append-Contiguous s n (e ∷ es) added (p, q, c) b h =
    elim (Bool-cases (ltb (last_log_index s) e.index)) [
      | inl t ↦
          let same : e ∷ es ≡ added = ground (arith, h, t) in
          let start : n ≡ suc (last_log_index s) = ground (arith, t, p, b) in
          subst (Contiguous (suc (last_log_index s))) same
            (subst (λ m. Contiguous m (e ∷ es)) start (p, q, c))
      | inr t ↦
          entries_to_append-Contiguous s (suc n) es added c (ground (arith, t, p))
            (ground (arith, h, t))
    ]
