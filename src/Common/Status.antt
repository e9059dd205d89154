-- ===== src/Common/Status.antt =====
-- `common/status.h`: what a call returns, and the two ways in which calls are chained.
-- A `Status` is its code; the message, which no code of the program branches on, is not modelled.
use cqupt_block_storage.Base.{
  ℕ, zero, suc, ◌≡◌, refl, ◌⊎◌, inl, inr, Bool, true, false, List, [], ◌∷◌,
}

-- The codes but `kOk`, which is `ok` below. `undefined` is no code of the source: it stands for an
-- access outside a vector, whose behaviour C++ leaves undefined.
pub data StatusCode : Type 0 where
  invalid_argument not_found io_error corruption busy resource_exhausted : StatusCode
  retry_later internal_error undefined : StatusCode

-- A status together with what the call writes through its output pointer when the status is OK.
pub data Result {ℓ} (A : Type ℓ) : Type ℓ where
  ok : A → Result A
  err : StatusCode → Result A

abbrev pub ⊤ : Type 0
⊤ = Unit {0}

infixl 5 ◌>>=◌ ◌>>◌
abbrev pub ◌>>=◌ {ℓ κ} : {A : Type ℓ} {B : Type κ} → Result A → (A → Result B) → Result B
ok a >>= f = f a
err e >>= f = err e

abbrev pub ◌>>◌ {ℓ} : {B : Type ℓ} → Result ⊤ → Result B → Result B
m >> k = m >>= λ _. k

-- `if (b) return Status(e);`
abbrev pub reject_if : Bool → StatusCode → Result ⊤
reject_if true e = err e
reject_if false e = ok tt

-- `status.ok()`
abbrev pub is_ok {ℓ} : {A : Type ℓ} → Result A → Bool
is_ok (ok a) = true
is_ok (err e) = false

-- `v[i]` for a vector `v`
abbrev pub at {ℓ} : {A : Type ℓ} → List A → ℕ → Result A
at [] i = err undefined
at (x ∷ xs) zero = ok x
at (x ∷ xs) (suc i) = at xs i

-- A result is one of the two.
pub Result-cases {ℓ} :
    {A : Type ℓ} (r : Result A) → ((a : A) × (r ≡ ok a)) ⊎ ((e : StatusCode) × (r ≡ err e))
Result-cases (ok a) = inl (a, refl)
Result-cases (err e) = inr (e, refl)
