-- ===== src/Base/Maps.antt =====
-- `std::map`: pairs in the order of their keys, in which a key stands once.
use mathlib.Core.Path.{◌≡◌, refl, subst}
use mathlib.Core.Logic.{◌↔◌, inl, inr}
use mathlib.Core.Bool.{Bool, true}
use mathlib.Core.List.{List, [], ◌∷◌, Memᴰ}
use mathlib.Core.Option.{Option, none, some}
use Prim.Native.Nat.{ℕ}
use native.Mathlib.Omega.{arith}
use cqupt_block_storage.Base.Tests.{◌==◌, ==_iff, ltb, if◌then◌else◌, Bool-cases}
use cqupt_block_storage.Base.Lists.{list_eq, list_eq_iff, list_less, All}

-- What a map asks of its keys: equality, and the order that an iteration follows.
pub record Key {ℓ} (K : Type ℓ) : Type ℓ where
  pub beq : K → K → Bool
  pub less : K → K → Bool
  pub beq_iff : (a b : K) → (beq a b ≡ true) ↔ (a ≡ b)

instance abbrev pub nat_key : Key ℕ
nat_key = record { beq = ◌==◌; less = ltb; beq_iff = ==_iff }

instance abbrev pub bytes_key : Key (List ℕ)
bytes_key = record { beq = list_eq; less = list_less; beq_iff = list_eq_iff }

module _ {ℓ κ} {K : Type ℓ} {V : Type κ} ⦃e : Key K⦄ where
  -- `m.find(k)`
  unfoldable pub find : K → List (K × V) → Option V
  find k [] = none
  find k ((j, w) ∷ m) = if e.beq j k then some w else find k m

  -- `m.erase(k)`
  unfoldable pub erase : K → List (K × V) → List (K × V)
  erase k [] = []
  erase k ((j, w) ∷ m) = let rest = erase k m in if e.beq j k then rest else (j, w) ∷ rest

  -- `m[k] = v`, also `m.emplace(k, v)` where the key is new; in a sorted list the key does not stand
  -- behind the place of insertion, and erasing it there changes nothing
  unfoldable pub insert : K → V → List (K × V) → List (K × V)
  unfolding erase
  insert k v [] = (k, v) ∷ []
  insert k v ((j, w) ∷ m) =
      let rest = insert k v m in
      if e.beq j k
      then (k, v) ∷ m
      else if e.less k j
      then (k, v) ∷ (j, w) ∷ erase k m
      else (j, w) ∷ rest

  -- A key stands once.
  abbrev pub Distinct : List (K × V) → Type (ℓ ⊔ κ)
  Distinct [] = Unit
  Distinct ((k, v) ∷ m) = (find k m ≡ none) × Distinct m

  -- The map's laws have no side condition.
  pub find-erase :
      (j k : K) (m : List (K × V)) → find j (erase k m) ≡ (if e.beq k j then none else find j m)
  unfolding find erase
  find-erase j k [] = ground arith
  find-erase j k ((i, w) ∷ m) =
      ground (arith, find-erase j k m, e.beq_iff i k, e.beq_iff k j, e.beq_iff i j)

  pub find-insert :
      (j k : K) (v : V) (m : List (K × V))
      → find j (insert k v m) ≡ (if e.beq k j then some v else find j m)
  unfolding find insert
  find-insert j k v [] = refl
  find-insert j k v ((i, w) ∷ m) =
      ground
        (arith, find-insert j k v m, find-erase j k m, e.beq_iff i k, e.beq_iff k j, e.beq_iff i j)

  pub erase-Distinct : (k : K) (m : List (K × V)) → Distinct m → Distinct (erase k m)
  unfolding erase
  erase-Distinct k [] d = d
  erase-Distinct k ((j, w) ∷ m) (new, d) = elim (Bool-cases (e.beq j k)) [
    | inl t ↦ rw t (erase-Distinct k m d)
    | inr t ↦ rw t (ground (arith, find-erase j k m, new), erase-Distinct k m d)
  ]

  pub insert-Distinct : (k : K) (v : V) (m : List (K × V)) → Distinct m → Distinct (insert k v m)
  unfolding insert find
  insert-Distinct k v [] d = (refl, tt)
  insert-Distinct k v ((j, w) ∷ m) (new, d) = elim (Bool-cases (e.beq j k)) [
    | inl t ↦ rw t (subst (λ i. find i m ≡ none) ((e.beq_iff j k).0 t) new, d)
    | inr t ↦ elim (Bool-cases (e.less k j)) [
      | inl u ↦
          rw (t, u)
            (
              ground (arith, t, find-erase k k m, (e.beq_iff k k).1 refl),
              (ground (arith, find-erase j k m, new), erase-Distinct k m d),
            )
      | inr u ↦
          rw (t, u)
            (
              ground (arith, t, find-insert j k v m, new, e.beq_iff k j, e.beq_iff j k),
              insert-Distinct k v m d,
            )
    ]
  ]

module _ {ℓ κ μ} {K : Type ℓ} {V : Type κ} ⦃e : Key K⦄ (P : K × V → Type μ) where
  erase-All : (k : K) (m : List (K × V)) → All P m → All P (erase k m)
  unfolding erase
  erase-All k [] h = tt
  erase-All k ((j, w) ∷ m) (p, h) = elim (Bool-cases (e.beq j k)) [
    | inl t ↦ rw t (erase-All k m h)
    | inr t ↦ rw t (p, erase-All k m h)
  ]

  pub insert-All : (k : K) (v : V) (m : List (K × V)) → P (k, v) → All P m → All P (insert k v m)
  unfolding insert
  insert-All k v [] p h = (p, tt)
  insert-All k v ((j, w) ∷ m) p (q, h) = elim (Bool-cases (e.beq j k)) [
    | inl t ↦ rw t (p, h)
    | inr t ↦ elim (Bool-cases (e.less k j)) [
      | inl u ↦ rw (t, u) (p, (q, erase-All k m h))
      | inr u ↦ rw (t, u) (q, insert-All k v m p h)
    ]
  ]

-- the values, in the order of the keys
abbrev pub values {ℓ κ} : {K : Type ℓ} {V : Type κ} → List (K × V) → List V
values [] = []
values ((k, v) ∷ m) = v ∷ values m

module _ {ℓ κ μ} {K : Type ℓ} {V : Type κ} ⦃e : Key K⦄ (P : V → Type μ) where
  -- What holds of each value that a key finds holds of the values.
  pub All-values :
      (m : List (K × V))
      → Distinct m
      → ((k : K) (v : V) → find k m ≡ some v → P v)
      → All P (values m)
  unfolding find
  All-values [] d h = tt
  All-values ((k, v) ∷ m) (new, d) h = (
    h k v (rw ((e.beq_iff k k).1 refl) refl),
    All-values m d λ j w found. h j w (ground (arith, new, found, e.beq_iff k j)),
  )

-- A value that a key finds is one of the values.
pub values-Mem {ℓ κ} :
    {K : Type ℓ} {V : Type κ} ⦃e : Key K⦄ (k : K) (v : V) (m : List (K × V))
    → find k m ≡ some v
    → Memᴰ v (values m)
unfolding find
values-Mem k v [] h = absurd (ground (arith, h))
values-Mem ⦃e⦄ k v ((j, w) ∷ m) h = elim (Bool-cases (e.beq j k)) [
  | inl t ↦ Memᴰ.head (ground (arith, h, t))
  | inr t ↦ Memᴰ.tail (values-Mem k v m (ground (arith, h, t)))
]
