-- ===== src/Common/Action.antt =====
-- Methods that change an object: they return a status and the object, which keeps what was
-- written before an error.
use cqupt_block_storage.Base.{Bool, true, false}
use cqupt_block_storage.Common.Status.{Result, ok, err, StatusCode, ⊤}

abbrev pub Action : Type 0 → Type 0 → Type 0
Action S A = S → Result A × S

module _ {S A : Type 0} where
  abbrev pub pure : A → Action S A
  pure a s = (ok a, s)

  -- A check or a read that leaves the object alone.
  abbrev pub check : (S → Result A) → Action S A
  check f s = (f s, s)

infixl 5 ◌>>=◌ ◌>>◌
abbrev pub ◌>>=◌ : {S A B : Type 0} → Action S A → (A → Action S B) → Action S B
◌>>=◌ m f s = let (r, s') = m s in elim r [ ok a ↦ f a s' | err e ↦ (err e, s') ]

abbrev pub ◌>>◌ : {S B : Type 0} → Action S ⊤ → Action S B → Action S B
m >> k = m >>= λ _. k

abbrev pub modify : {S : Type 0} → (S → S) → Action S ⊤
modify f s = (ok tt, f s)

abbrev pub refuse_if : {S : Type 0} → (S → Bool) → StatusCode → Action S ⊤
refuse_if b e s = (elim (b s) [ true ↦ err e | false ↦ ok tt ], s)
