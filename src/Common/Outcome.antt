-- ===== src/Common/Outcome.antt =====
-- Go's errors and the functions that return them. An `error` is a text, or a text wrapped round
-- another error by `fmt.Errorf("...: %w", err)`; `error_text` is what `err.Error()` gives.
use Prim.Native.String.{String, ◌++◌}
use mathlib.Core.Path.{◌≡◌, refl}
use mathlib.Core.Logic.{◌⊎◌, inl, inr}
use mathlib.Core.Bool.{Bool, true, false}

pub data GoError : Type 0 where
  message : String → GoError
  wrapped : String → GoError → GoError

abbrev pub error_text : GoError → String
error_text (message s) = s
error_text (wrapped s e) = s ++ ": " ++ error_text e

pub data Result {ℓ} (A : Type ℓ) : Type ℓ where
  ok : A → Result A
  err : GoError → Result A

-- A call that reads and changes the world `S` and may return an error. What it changed before the
-- error stays changed.
abbrev pub Action {ℓ} : Type ℓ → Type ℓ → Type ℓ
Action S A = S → Result A × S

abbrev pub rewrap {ℓ} : {A : Type ℓ} → String → Result A → Result A
rewrap text (ok a) = ok a
rewrap text (err e) = err (wrapped text e)

module _ {ℓ} {S A : Type ℓ} where
  abbrev pub pure : A → Action S A
  pure a s = (ok a, s)

  abbrev pub fail : GoError → Action S A
  fail e s = (err e, s)

  abbrev pub lift : Result A → Action S A
  lift r s = (r, s)

  -- `if err != nil { return fmt.Errorf("text: %w", err) }`
  abbrev pub wrap : String → Action S A → Action S A
  wrap text m s = let (r, s') = m s in (rewrap text r, s')

  -- A call whose error is only logged: the caller goes on with the result, whatever it is.
  abbrev pub attempt : Action S A → Action S (Result A)
  attempt m s = let (r, s') = m s in (ok r, s')

module _ {ℓ} {S A B : Type ℓ} where
  abbrev pub continue : Result A → (A → Action S B) → Action S B
  continue (ok a) f s = f a s
  continue (err e) f s = (err e, s)

  infixl 5 ◌>>=◌ ◌>>◌
  abbrev pub ◌>>=◌ : Action S A → (A → Action S B) → Action S B
  ◌>>=◌ m f s = let (r, s') = m s in continue r f s'

  abbrev pub ◌>>◌ : Action S A → Action S B → Action S B
  m >> k = m >>= λ _. k

module _ {ℓ} {A : Type ℓ} where
  abbrev pub is_ok : Result A → Bool
  is_ok (ok a) = true
  is_ok (err e) = false

  pub ok-injective : {a b : A} → ok a ≡ ok b → a ≡ b
  ok-injective e = cc

  pub Result-cases : (r : Result A) → ((a : A) × (r ≡ ok a)) ⊎ ((e : GoError) × (r ≡ err e))
  Result-cases (ok a) = inl (a, refl)
  Result-cases (err e) = inr (e, refl)

-- The result of a call that returns only an `error`.
abbrev pub Done : Type 0
Done = Unit {0}

abbrev pub guard : {S : Type 0} → Bool → GoError → Action S Done
guard true e s = (ok tt, s)
guard false e s = (err e, s)
