-- ===== src/Messaging/Connection/Handles.antt =====
-- The AMQP sessions that a trace of calls leaves open, and how each call changes them.
use quantum_entropy_service.Common.{
  ℕ, suc, ◌≡◌, ◌<◌, refl, ap, ◌∙◌, ◌==◌, if◌then◌else◌, List, [], ◌∷◌, ◌++◌, length, Option, none,
  some, arith,
}
use quantum_entropy_service.Messaging.Broker.{Call, Trace, dialled, session_closed}

abbrev pub without : ℕ → List ℕ → List ℕ
without s [] = []
without s (x ∷ xs) = if x == s then without s xs else x ∷ without s xs

abbrev after_call : Call → List ℕ → List ℕ
after_call (dialled s) open_ = s ∷ open_
after_call (session_closed s) open_ = without s open_
after_call _ open_ = open_

-- The sessions that were dialled and have not been closed, the newest first.
abbrev pub open_sessions : Trace → List ℕ
open_sessions [] = []
open_sessions (call ∷ trace) = after_call call (open_sessions trace)

abbrev pub held : Option ℕ → List ℕ
held none = []
held (some s) = s ∷ []

-- Handles below a bound, each older than the one before, so none is there twice.
abbrev pub Falling : ℕ → List ℕ → Type 0
Falling n [] = Unit {0}
Falling n (s ∷ xs) = (s < n) × Falling s xs

Falling-suc : (n : ℕ) (xs : List ℕ) → Falling n xs → Falling (suc n) xs
Falling-suc n [] h = tt
Falling-suc n (s ∷ xs) (l, h) = (omega arith, h)

Falling-below : (n m : ℕ) (xs : List ℕ) → Falling n xs → n < suc m → Falling m xs
Falling-below n m [] h l = tt
Falling-below n m (s ∷ xs) (k, h) l = (omega arith, h)

-- What is younger is not there.
without-older : (s : ℕ) (xs : List ℕ) → Falling s xs → without s xs ≡ xs
without-older s [] h = refl
without-older s (x ∷ xs) (l, h) =
    ground (arith, without-older s xs (Falling-below x s xs h (omega arith)))

without-newest : (s : ℕ) (xs : List ℕ) → Falling s xs → without s (s ∷ xs) ≡ xs
without-newest s xs h = ground (arith, without-older s xs h)

older : (n s : ℕ) (xs ys : List ℕ) → Falling n (xs ++ s ∷ ys) → s < n
older n s [] ys (l, h) = l
older n s (x ∷ xs) ys (l, h) = let k = older x s xs ys h in omega arith

pub without-middle :
    (n s : ℕ) (xs ys : List ℕ) → Falling n (xs ++ s ∷ ys) → without s (xs ++ s ∷ ys) ≡ xs ++ ys
without-middle n s [] ys (l, h) = without-newest s ys h
without-middle n s (x ∷ xs) ys (l, h) =
    ground (arith, older x s xs ys h, without-middle x s xs ys h)

pub Falling-middle : (n s : ℕ) (xs ys : List ℕ) → Falling n (xs ++ s ∷ ys) → Falling n (xs ++ ys)
Falling-middle n s [] ys (l, h) = Falling-below s n ys h (omega arith)
Falling-middle n s (x ∷ xs) ys (l, h) = (l, Falling-middle x s xs ys h)

-- The open sessions are the one held and those of `rest`.
pub record Accounts (rest : List ℕ) (session : Option ℕ) (trace : Trace) : Type 0 where
  pub accounted : open_sessions trace ≡ held session ++ rest
  pub falling : Falling (length trace) (held session ++ rest)

-- A call that neither dials nor closes a session.
pub Accounts-call :
    (call : Call) {rest : List ℕ} {o : Option ℕ} {t : Trace}
    → ((xs : List ℕ) → after_call call xs ≡ xs)
    → Accounts rest o t
    → Accounts rest o (call ∷ t)
Accounts-call call {rest} {o} {t} same h = record {
  accounted = same (open_sessions t) ∙ h.accounted;
  falling = Falling-suc (length t) (held o ++ rest) h.falling;
}

-- The session that is held may as well be one of the rest.
pub Accounts-taken :
    {rest : List ℕ} {t : Trace} (o : Option ℕ)
    → Accounts rest o t
    → Accounts (held o ++ rest) none t
Accounts-taken o h = record { accounted = h.accounted; falling = h.falling }

pub Accounts-kept :
    {rest : List ℕ} {t : Trace} (o : Option ℕ)
    → Accounts (held o ++ rest) none t
    → Accounts rest o t
Accounts-kept o h = record { accounted = h.accounted; falling = h.falling }

-- A session that is dialled is the newest.
pub Accounts-dialled :
    {rest : List ℕ} {t : Trace} (o : Option ℕ)
    → Accounts rest o t
    → Accounts (held o ++ rest) (some (length t)) (dialled (length t) ∷ t)
Accounts-dialled {t = t} o h = record {
  accounted = ap (◌∷◌ (length t)) h.accounted;
  falling = (omega arith, h.falling);
}

-- One of the rest is closed.
pub Accounts-closed :
    {t : Trace} (o : Option ℕ) (xs ys : List ℕ) (s : ℕ)
    → Accounts (xs ++ s ∷ ys) o t
    → Accounts (xs ++ ys) o (session_closed s ∷ t)
Accounts-closed {t} none xs ys s h = record {
  accounted = ap (without s) h.accounted ∙ without-middle (length t) s xs ys h.falling;
  falling = Falling-suc (length t) (xs ++ ys) (Falling-middle (length t) s xs ys h.falling);
}
Accounts-closed {t} (some p) xs ys s h = record {
  accounted = ap (without s) h.accounted ∙ without-middle (length t) s (p ∷ xs) ys h.falling;
  falling =
      Falling-suc (length t) (p ∷ xs ++ ys) (Falling-middle (length t) s (p ∷ xs) ys h.falling);
}
