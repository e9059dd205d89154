-- ===== src/Store/Address/Injective.antt =====
-- Two addresses with one key are the same: the port's digits hold no colon, so the last colon of
-- a key is the one between host and port, whatever the host is.
use cqupt_block_storage.Base.{
  ℕ, zero, suc, ◌+◌, ◌-◌, ◌*◌, ◌/◌, ◌%◌, ◌≤◌, ◌<◌, ◌≡◌, refl, sym, ◌∙◌, ap, subst, List, [], ◌∷◌,
  ◌++◌, inl, inr, arith, Bool-cases, ltb,
}
use cqupt_block_storage.Common.Status.{⊤}
use cqupt_block_storage.Store.Types.{StoreAddress}
use cqupt_block_storage.Store.Address.{digits, to_string, address_key}

abbrev AreDigits : List ℕ → Type 0
AreDigits [] = ⊤
AreDigits (d ∷ ds) = (48 ≤ d) × (d < 58) × AreDigits ds

-- The number that a text of digits stands for.
number : ℕ → List ℕ → ℕ
number acc [] = acc
number acc (d ∷ ds) = number (acc * 10 + (d - 48)) ds

number-append :
    (acc d : ℕ) (ds : List ℕ) → number acc (ds ++ d ∷ []) ≡ number acc ds * 10 + (d - 48)
unfolding number
number-append acc d [] = refl
number-append acc d (e ∷ ds) = number-append (acc * 10 + (e - 48)) d ds

AreDigits-append : (d : ℕ) (ds : List ℕ) → 48 ≤ d → d < 58 → AreDigits ds → AreDigits (ds ++ d ∷ [])
AreDigits-append d [] p q h = (p, q, tt)
AreDigits-append d (e ∷ ds) p q (a, b, h) = (a, b, AreDigits-append d ds p q h)

digits-AreDigits : (fuel n : ℕ) → AreDigits (digits fuel n)
unfolding digits
digits-AreDigits zero n = tt
digits-AreDigits (suc fuel) n = elim (Bool-cases (ltb n 10)) [
  | inl t ↦ rw t (omega arith, ground (arith, t), tt)
  | inr f ↦ rw f (
      AreDigits-append (48 + n % 10) (digits fuel (n / 10)) (omega arith) (omega arith)
        (digits-AreDigits fuel (n / 10)))
]

-- With fuel above the number every digit is there.
number-digits : (fuel n : ℕ) → n < fuel → number 0 (digits fuel n) ≡ n
unfolding digits
number-digits zero n h = absurd (omega arith)
number-digits (suc fuel) n h = elim (Bool-cases (ltb n 10)) [
  | inl t ↦ rw t (small n)
  | inr f ↦ rw f (
      number-append 0 (48 + n % 10) (digits fuel (n / 10))
      ∙ larger n (number 0 (digits fuel (n / 10))) (number-digits fuel (n / 10) (ground arith)))
]
  where
    small : (k : ℕ) → number 0 ((48 + k) ∷ []) ≡ k
    small k = unfold number in omega arith

    larger : (k m : ℕ) → m ≡ k / 10 → m * 10 + (48 + k % 10 - 48) ≡ k
    larger k m e = omega (arith, e)

to_string_inj : (m n : ℕ) → to_string m ≡ to_string n → m ≡ n
unfolding to_string digits
to_string_inj m n h =
    sym (number-digits (suc m) m (omega arith))
    ∙ ap (number 0) h
    ∙ number-digits (suc n) n (omega arith)

-- A colon is no digit.
no_colon : (xs ds : List ℕ) → AreDigits (xs ++ b':' ∷ ds) → ⊥
no_colon [] ds h = absurd (omega (arith, h))
no_colon (x ∷ xs) ds (_, _, h) = no_colon xs ds h

last_colon :
    (xs ys ds es : List ℕ)
    → AreDigits ds
    → AreDigits es
    → xs ++ b':' ∷ ds ≡ ys ++ b':' ∷ es
    → (xs ≡ ys) × (ds ≡ es)
last_colon [] [] ds es p q h = (refl, cc)
last_colon [] (y ∷ ys) ds es p q h =
    let tails : ds ≡ ys ++ b':' ∷ es = cc in absurd (no_colon ys es (subst AreDigits tails p))
last_colon (x ∷ xs) [] ds es p q h =
    let tails : es ≡ xs ++ b':' ∷ ds = cc in absurd (no_colon xs ds (subst AreDigits tails q))
last_colon (x ∷ xs) (y ∷ ys) ds es p q h =
    let tails : xs ++ b':' ∷ ds ≡ ys ++ b':' ∷ es = cc in
    let (front, back) = last_colon xs ys ds es p q tails in (cc, back)

-- Two addresses with the same key, which is the host, a colon and the decimal digits of the port,
-- are the same address.
pub address_key_inj : (a b : StoreAddress) → address_key a ≡ address_key b → a ≡ b
unfolding address_key
address_key_inj a b h =
    let (host, port) =
      last_colon a.host b.host (to_string a.port) (to_string b.port)
        (digits-AreDigits (suc a.port) a.port) (digits-AreDigits (suc b.port) b.port) h in
    let same : a.port ≡ b.port = to_string_inj a.port b.port port in ground (arith, host, same)
