-- ===== src/Base/Sorting.antt =====
-- Sorting by a Boolean order, and what is left behind when a sorted list is cut.
use mathlib.Core.Path.{◌≡◌, refl}
use mathlib.Core.Logic.{◌⊎◌, inl, inr}
use mathlib.Core.Bool.{Bool, true, false}
use mathlib.Core.List.{List, [], ◌∷◌, Memᴰ}
use Prim.Native.Nat.{ℕ, zero, suc}
use native.Mathlib.Omega.{arith}
use cqupt_block_storage.Base.Tests.{if◌then◌else◌, Bool-cases}
use cqupt_block_storage.Base.Lists.{length, take, All, Pairwise}

module _ {ℓ} {A : Type ℓ} (less : A → A → Bool) where
  unfoldable pub insert_by : A → List A → List A
  insert_by a [] = a ∷ []
  insert_by a (b ∷ bs) = let rest = insert_by a bs in if less b a then b ∷ rest else a ∷ b ∷ bs

  -- `std::sort(first, last, less)`
  unfoldable pub sort_by : List A → List A
  unfolding insert_by
  sort_by [] = []
  sort_by (a ∷ as') = insert_by a (sort_by as')

  module _ {κ} (P : A → Type κ) where
    insert_by-All : (a : A) (xs : List A) → P a → All P xs → All P (insert_by a xs)
    unfolding insert_by
    insert_by-All a [] p h = (p, tt)
    insert_by-All a (b ∷ bs) p (q, h) = elim (Bool-cases (less b a)) [
      | inl e ↦ rw e (q, insert_by-All a bs p h)
      | inr e ↦ rw e (p, (q, h))
    ]

    pub sort_by-All : (xs : List A) → All P xs → All P (sort_by xs)
    unfolding sort_by
    sort_by-All [] h = h
    sort_by-All (a ∷ xs) (p, h) = insert_by-All a (sort_by xs) p (sort_by-All xs h)

  insert_by-length : (a : A) (xs : List A) → length (insert_by a xs) ≡ suc (length xs)
  unfolding insert_by
  insert_by-length a [] = refl
  insert_by-length a (b ∷ bs) = ground (arith, insert_by-length a bs)

  pub length-sort_by : (xs : List A) → length (sort_by xs) ≡ length xs
  unfolding sort_by
  length-sort_by [] = refl
  length-sort_by (a ∷ xs) = ground (arith, insert_by-length a (sort_by xs), length-sort_by xs)

  insert_by-Mem : (a w : A) (xs : List A) → (w ≡ a) ⊎ Memᴰ w xs → Memᴰ w (insert_by a xs)
  unfolding insert_by
  insert_by-Mem a w [] (inr m) = elim m [ ]
  insert_by-Mem a w [] (inl e) = Memᴰ.head e
  insert_by-Mem a w (b ∷ bs) (inl e) = elim (Bool-cases (less b a)) [
    | inl t ↦ rw t (Memᴰ.tail (insert_by-Mem a w bs (inl e)))
    | inr t ↦ rw t (Memᴰ.head e)
  ]
  insert_by-Mem a w (b ∷ bs) (inr (Memᴰ.head e)) = elim (Bool-cases (less b a)) [
    | inl t ↦ rw t (Memᴰ.head e)
    | inr t ↦ rw t (Memᴰ.tail (Memᴰ.head e))
  ]
  insert_by-Mem a w (b ∷ bs) (inr (Memᴰ.tail m)) = elim (Bool-cases (less b a)) [
    | inl t ↦ rw t (Memᴰ.tail (insert_by-Mem a w bs (inr m)))
    | inr t ↦ rw t (Memᴰ.tail (Memᴰ.tail m))
  ]

  pub sort_by-Mem : (w : A) (xs : List A) → Memᴰ w xs → Memᴰ w (sort_by xs)
  unfolding sort_by
  sort_by-Mem w [] m = elim m [ ]
  sort_by-Mem w (a ∷ xs) (Memᴰ.head e) = insert_by-Mem a w (sort_by xs) (inl e)
  sort_by-Mem w (a ∷ xs) (Memᴰ.tail m) = insert_by-Mem a w (sort_by xs) (inr (sort_by-Mem w xs m))

  -- A relation between any two elements, in whatever order.
  module _ {κ} (R : A → A → Type κ) (symmetric : (a b : A) → R a b → R b a) where
    insert_by-Pairwise :
        (a : A) (xs : List A) → All (R a) xs → Pairwise R xs → Pairwise R (insert_by a xs)
    unfolding insert_by
    insert_by-Pairwise a [] h p = (tt, tt)
    insert_by-Pairwise a (b ∷ bs) (r, h) (q, p) = elim (Bool-cases (less b a)) [
      | inl t ↦ rw t (insert_by-All (R b) a bs (symmetric a b r) q, insert_by-Pairwise a bs h p)
      | inr t ↦ rw t ((r, h), (q, p))
    ]

    pub sort_by-Pairwise : (xs : List A) → Pairwise R xs → Pairwise R (sort_by xs)
    unfolding sort_by
    sort_by-Pairwise [] p = tt
    sort_by-Pairwise (a ∷ xs) (h, p) =
        insert_by-Pairwise a (sort_by xs) (sort_by-All (R a) xs h) (sort_by-Pairwise xs p)

  -- No element comes before one that stands ahead of it.
  pub Sorted : List A → Type ℓ
  Sorted [] = Unit
  Sorted (a ∷ xs) = All (λ b. less b a ≡ false) xs × Sorted xs

  pub Sorted-Pairwise {κ} :
      (R : A → A → Type κ)
      → ((a b : A) → less b a ≡ false → R a b)
      → (xs : List A) → Sorted xs
      → Pairwise R xs
  unfolding Sorted
  Sorted-Pairwise R step [] h = tt
  Sorted-Pairwise R step (a ∷ xs) (h, s) = (All-weaken xs h, Sorted-Pairwise R step xs s)
    where
      All-weaken : (ys : List A) → All (λ b. less b a ≡ false) ys → All (R a) ys
      All-weaken [] h = tt
      All-weaken (b ∷ ys) (p, h) = (step a b p, All-weaken ys h)

  -- What the order has to satisfy.
  pub record IsOrder : Type ℓ where
    pub asym : (a b : A) → less a b ≡ true → less b a ≡ false
    pub negative_trans : (a b c : A) → less b a ≡ false → less c b ≡ false → less c a ≡ false

  module _ (o : IsOrder) where
    All-trans :
        (a b : A) (xs : List A)
        → less b a ≡ false
        → All (λ c. less c b ≡ false) xs
        → All (λ c. less c a ≡ false) xs
    All-trans a b [] h g = tt
    All-trans a b (x ∷ xs) h (p, g) = (o.negative_trans a b x h p, All-trans a b xs h g)

    insert_by-Sorted : (a : A) (xs : List A) → Sorted xs → Sorted (insert_by a xs)
    unfolding insert_by Sorted
    insert_by-Sorted a [] s = (tt, tt)
    insert_by-Sorted a (b ∷ bs) (h, s) = elim (Bool-cases (less b a)) [
      | inl t ↦
          rw t
            (insert_by-All (λ c. less c b ≡ false) a bs (o.asym b a t) h, insert_by-Sorted a bs s)
      | inr t ↦ rw t ((t, All-trans a b bs t h), (h, s))
    ]

    pub sort_by-Sorted : (xs : List A) → Sorted (sort_by xs)
    unfolding sort_by Sorted
    sort_by-Sorted [] = tt
    sort_by-Sorted (a ∷ xs) = insert_by-Sorted a (sort_by xs) (sort_by-Sorted xs)

  All-Mem : (P : A → Type 0) (w : A) (xs : List A) → All P xs → Memᴰ w xs → P w
  All-Mem P w [] h m = elim m [ ]
  All-Mem P w (x ∷ xs) (p, h) (Memᴰ.head e) = rw e p
  All-Mem P w (x ∷ xs) (p, h) (Memᴰ.tail m) = All-Mem P w xs h m

  -- An element of a sorted list is among the first `n`, or it comes before none of them.
  pub take-Sorted :
      (n : ℕ) (xs : List A) (w : A)
      → Sorted xs
      → Memᴰ w xs
      → Memᴰ w (take n xs) ⊎ All (λ a. less w a ≡ false) (take n xs)
  unfolding Sorted
  take-Sorted zero xs w s m = inr tt
  take-Sorted (suc n) [] w s m = elim m [ ]
  take-Sorted (suc n) (x ∷ xs) w (h, s) (Memᴰ.head e) = inl (Memᴰ.head e)
  take-Sorted (suc n) (x ∷ xs) w (h, s) (Memᴰ.tail m) = elim (take-Sorted n xs w s m) [
    | inl there ↦ inl (Memᴰ.tail there)
    | inr none_before ↦ inr (All-Mem (λ b. less b x ≡ false) w xs h m, none_before)
  ]
