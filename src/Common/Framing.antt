-- ===== src/Common/Framing.antt =====
-- Calls that leave a part of the world as it was, with one rule for each way to build a call.
use mathlib.Core.Path.{◌≡◌, refl, ap, ◌∙◌}
use mathlib.Core.Bool.{Bool, true, false}
use quantum_entropy_service.Common.Tests.{if◌then◌else◌}
use quantum_entropy_service.Common.Outcome.{
  GoError, Result, ok, err, Action, pure, fail, lift, wrap, rewrap, wrapped, attempt, guard,
  continue, ◌>>=◌,
}
use Prim.Native.String.{String}

module _ {S X : Type 0} where
  -- Whether `m` succeeds or fails, `view` is afterwards what it was.
  pub record Keeps {A : Type 0} (view : S → X) (m : Action S A) : Type 0 where
    pub at : (s : S) → view (m s).1 ≡ view s

module _ {S X A : Type 0} {view : S → X} where
  pub Keeps-pure : (a : A) → Keeps view (pure a)
  Keeps-pure a = record { at = λ s. refl }

  pub Keeps-fail : (e : GoError) → Keeps view (fail {A = A} e)
  Keeps-fail e = record { at = λ s. refl }

  pub Keeps-lift : (r : Result A) → Keeps view (lift r)
  Keeps-lift r = record { at = λ s. refl }

  pub Keeps-wrap : (text : String) (m : Action S A) → Keeps view m → Keeps view (wrap text m)
  Keeps-wrap text m k = record { at = k.at }

  pub Keeps-attempt : (m : Action S A) → Keeps view m → Keeps view (attempt m)
  Keeps-attempt m k = record { at = k.at }

  pub Keeps-if :
      (b : Bool) (m n : Action S A) → Keeps view m → Keeps view n → Keeps view (if b then m else n)
  Keeps-if true m n k l = k
  Keeps-if false m n k l = l

module _ {S X Y A : Type 0} {view : S → X} where
  -- What keeps a part keeps all that depends on it.
  pub Keeps-view : (f : X → Y) {m : Action S A} → Keeps view m → Keeps (λ s. f (view s)) m
  Keeps-view f k = record { at = λ s. ap f (k.at s) }

module _ {S X : Type 0} {view : S → X} where
  pub Keeps-guard : (b : Bool) (e : GoError) → Keeps view (guard b e)
  Keeps-guard true e = record { at = λ s. refl }
  Keeps-guard false e = record { at = λ s. refl }

module _ {S X A B : Type 0} {view : S → X} where
  continue-Keeps :
      (r : Result A) (k : A → Action S B) (s : S)
      → ((a : A) → Keeps view (k a))
      → view (continue r k s).1 ≡ view s
  continue-Keeps (ok a) k s h = (h a).at s
  continue-Keeps (err e) k s h = refl

  pub Keeps-bind :
      (m : Action S A) (k : A → Action S B)
      → Keeps view m
      → ((a : A) → Keeps view (k a))
      → Keeps view (m >>= k)
  Keeps-bind m k h l = record { at = λ s. continue-Keeps (m s).0 k (m s).1 l ∙ h.at s }

  -- A property of the whole call, from the same property of what comes after a part that keeps `view`.
  pub keeps_then :
      (P : Result B → S → Type 0) (m : Action S A) (k : A → Action S B) (s : S)
      → Keeps view m
      → ((e : GoError) (s' : S) → view s' ≡ view s → P (err e) s')
      → ((a : A) (s' : S) → view s' ≡ view s → P (k a s').0 (k a s').1)
      → P ((m >>= k) s).0 ((m >>= k) s).1
  keeps_then P m k s h failed next = go (m s).0 (m s).1 (h.at s)
    where
      go : (r : Result A) (s' : S) → view s' ≡ view s → P (continue r k s').0 (continue r k s').1
      go (ok a) s' e = next a s' e
      go (err x) s' e = failed x s' e

module _ {S A B : Type 0} where
  -- The same from what the part is known to do.
  pub bind_then :
      (Q : Result A → S → Type 0) (P : Result B → S → Type 0) (m : Action S A) (k : A → Action S B)
      (s : S)
      → Q (m s).0 (m s).1
      → ((e : GoError) (s' : S) → Q (err e) s' → P (err e) s')
      → ((a : A) (s' : S) → Q (ok a) s' → P (k a s').0 (k a s').1)
      → P ((m >>= k) s).0 ((m >>= k) s).1
  bind_then Q P m k s h failed next = go (m s).0 (m s).1 h
    where
      go : (r : Result A) (s' : S) → Q r s' → P (continue r k s').0 (continue r k s').1
      go (ok a) s' e = next a s' e
      go (err x) s' e = failed x s' e

  -- The same for a predicate on the state alone, which every part preserves.
  pub preserves_then :
      (Q : S → Type 0) (m : Action S A) (k : A → Action S B) (s : S)
      → Q (m s).1
      → ((a : A) (s' : S) → Q s' → Q (k a s').1)
      → Q ((m >>= k) s).1
  preserves_then Q m k s h next = bind_then (λ _ t. Q t) (λ _ t. Q t) m k s h (λ e t q. q) next

  -- The same where the error of the part is wrapped: what follows from an error may not depend on
  -- its text.
  pub wrap_then :
      (Q : Result A → S → Type 0) (P : Result B → S → Type 0) (text : String) (m : Action S A)
      (k : A → Action S B) (s : S)
      → Q (m s).0 (m s).1
      → ((e e' : GoError) (s' : S) → Q (err e) s' → P (err e') s')
      → ((a : A) (s' : S) → Q (ok a) s' → P (k a s').0 (k a s').1)
      → P ((wrap text m >>= k) s).0 ((wrap text m >>= k) s).1
  wrap_then Q P text m k s h failed next = go (m s).0 (m s).1 h
    where
      go :
          (r : Result A) (s' : S)
          → Q r s'
          → P (continue (rewrap text r) k s').0 (continue (rewrap text r) k s').1
      go (ok a) s' e = next a s' e
      go (err x) s' e = failed x (wrapped text x) s' e

pub ruleset keeps = (
  Keeps-pure, Keeps-fail, Keeps-lift, Keeps-wrap, Keeps-attempt, Keeps-if, Keeps-guard, Keeps-bind,
)
