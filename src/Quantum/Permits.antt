-- ===== src/Quantum/Permits.antt =====
-- The permits of LfdClient (`sem`, internal/quantum/client_lfd.go) as a step relation over the calls of
-- FetchRandomBytes, in any interleaving. Calls are counted by where they are.
use quantum_entropy_service.Common.{ℕ, zero, suc, ◌+◌, ◌≤◌, ◌<◌, ◌≡◌, ◌⊎◌, inl, inr, refl, arith}

abbrev pub max_concurrent_lfd : ℕ
max_concurrent_lfd = 4

pub record Calls : Type 0 where
  -- calls blocked on `c.sem <-`, calls past it, and calls that have returned
  pub waiting : ℕ
  pub inside : ℕ
  pub finished : ℕ
  -- how many permits the channel holds
  pub held : ℕ

unfoldable pub no_calls : Calls
no_calls = record { waiting = 0; inside = 0; finished = 0; held = 0 }

pub data Step : Calls → Calls → Type 0 where
  arrives : {c : Calls} → Step c (record c { waiting = suc c.waiting })
  enters :
      {c : Calls} (n : ℕ)
      → c.waiting ≡ suc n
      → c.held < max_concurrent_lfd
      → Step c (record c { waiting = n; inside = suc c.inside; held = suc c.held })
  -- the deferred receive, on every path out of the function
  leaves :
      {c : Calls} (n k : ℕ)
      → c.inside ≡ suc n
      → c.held ≡ suc k
      → Step c (record c { inside = n; finished = suc c.finished; held = k })

infixr 30 ◌then◌
pub data Steps : Calls → Calls → Type 0 where
  done : {c : Calls} → Steps c c
  ◌then◌ : {c d e : Calls} → Step c d → Steps d e → Steps c e

abbrev pub arrived : {c d : Calls} → Steps c d → ℕ
arrived done = 0
arrived (arrives then s) = suc (arrived s)
arrived (enters n e h then s) = arrived s
arrived (leaves n k e f then s) = arrived s

-- A call can go on: one that waits gets a permit, or one that is inside returns.
abbrev pub CanGoOn : Calls → Type 0
CanGoOn c =
    ((n : ℕ) × (c.waiting ≡ suc n) × (c.held < max_concurrent_lfd))
    ⊎ ((n : ℕ) × (k : ℕ) × (c.inside ≡ suc n) × (c.held ≡ suc k))

-- As many permits are held as calls are inside, and at most four; the calls add up; and all have
-- returned or one can go on.
pub record Bounded (calls : ℕ) (c : Calls) : Type 0 where
  pub own : c.held ≡ c.inside
  pub few : c.inside ≤ max_concurrent_lfd
  pub all_there : c.waiting + c.inside + c.finished ≡ calls
  pub going : (c.finished ≡ calls) ⊎ CanGoOn c

Held : ℕ → Calls → Type 0
Held calls c =
    (c.held ≡ c.inside)
    × (c.inside ≤ max_concurrent_lfd)
    × (c.waiting + c.inside + c.finished ≡ calls)

going_of : (calls : ℕ) (c : Calls) → Held calls c → (c.finished ≡ calls) ⊎ CanGoOn c
unfolding Held
going_of calls c (own, few, there) = cases c.waiting c.inside c.held c.finished own few there
  where
    cases :
        (waiting inside held finished : ℕ)
        → held ≡ inside
        → inside ≤ max_concurrent_lfd
        → waiting + inside + finished ≡ calls
        → (finished ≡ calls)
          ⊎ (((n : ℕ) × (waiting ≡ suc n) × (held < max_concurrent_lfd))
              ⊎ ((n : ℕ) × (k : ℕ) × (inside ≡ suc n) × (held ≡ suc k)))
    cases zero zero held finished p q r = inl (omega (arith, r))
    cases (suc n) zero held finished p q r = inr (inl (n, refl, omega (arith, p)))
    cases waiting (suc n) held finished p q r = inr (inr (n, n, refl, p))

shift : (n calls : ℕ) (d : Calls) → Held (n + suc calls) d → Held (suc n + calls) d
unfolding Held
shift n calls d (own, few, there) = (own, few, omega (arith, there))

Steps-Held : (calls : ℕ) {c d : Calls} (s : Steps c d) → Held calls c → Held (arrived s + calls) d
unfolding Held
Steps-Held calls {c = c} done h = let (own, few, there) = h in (own, few, omega (arith, there))
Steps-Held calls {d = d} (arrives then s) h =
    let (own, few, there) = h in
    shift (arrived s) calls d (Steps-Held (suc calls) s (own, few, omega (arith, there)))
Steps-Held calls (enters n e l then s) h =
    let (own, few, there) = h in
    Steps-Held calls s (omega (arith, own), omega (arith, own, l), omega (arith, there, e))
Steps-Held calls (leaves n k e f then s) h =
    let (own, few, there) = h in
    Steps-Held calls s (omega (arith, own, e, f), omega (arith, few, e), omega (arith, there, e))

-- After any steps from the start: the calls that are inside hold one permit each and are at most
-- four; each call that arrived waits, is inside or has returned; and unless all have returned, one
-- that waits gets a permit or one that is inside returns.
pub Steps-Bounded : {c : Calls} (s : Steps no_calls c) → Bounded (arrived s) c
unfolding no_calls Held
Steps-Bounded {c = c} s =
    let (own, few, there) = Steps-Held 0 s (refl, omega arith, refl) in
    let calls : c.waiting + c.inside + c.finished ≡ arrived s = omega (arith, there) in
    record {
      own = own;
      few = few;
      all_there = calls;
      going = going_of (arrived s) c (own, few, calls);
    }
