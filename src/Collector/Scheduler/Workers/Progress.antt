-- ===== src/Collector/Scheduler/Workers/Progress.antt =====
-- A batch always ends: each step makes it lighter, and until it is over there is a step.
use quantum_entropy_service.Common.{
  ℕ, zero, suc, ◌+◌, ◌*◌, ◌≤◌, ◌<◌, ◌≡◌, Bool, true, false, List, [], ◌∷◌, length, message, Result,
  ok, err, refl, arith, ◌⊎◌, inl, inr,
}
use quantum_entropy_service.Collector.Scheduler.{max_failures}
use quantum_entropy_service.Collector.Scheduler.Workers.{
  Phase, checking, offering, closed, Fleet, start, Step, all_handed, too_many, offer, hand, abort,
  leave, quit, begin, succeed, failed, send_ok, send_err, wake, receive, Run, Over,
}
use quantum_entropy_service.Collector.Scheduler.Workers.Bounds.{
  Sound, run-Sound, start-Sound, moved_length, taken_errors,
}

abbrev pub phase_weight : Phase → ℕ
phase_weight checking = 2
phase_weight offering = 1
phase_weight closed = 0

-- How many more steps a batch can take at most.
abbrev pub weight : Fleet → ℕ
weight f =
    8 * f.remaining
    + phase_weight f.phase
    + 6 * f.taken
    + 5 * f.fetching
    + 4 * length f.sending
    + 2 * f.resting
    + length f.buffer
    + f.idle

-- Each step of a batch makes it lighter, so every interleaving is finite.
pub Step-lighter : {f g : Fleet} → Step f g → weight g < weight f
Step-lighter (all_handed p q) = ground arith
Step-lighter (too_many p q) = ground arith
Step-lighter (offer m p q l) = ground arith
Step-lighter (hand m i p q l) = ground arith
Step-lighter (abort p q) = ground arith
Step-lighter (leave i p q) = ground arith
Step-lighter (quit t p q) = ground arith
Step-lighter (begin t p q) = ground arith
Step-lighter (succeed b bytes p) = ground arith
Step-lighter (failed b e p) = ground arith
Step-lighter {f} (send_ok xs ys bytes p q) =
    ground (arith, moved_length xs ys f.buffer f.sending (ok bytes) p)
Step-lighter {f} (send_err xs ys e p q) =
    ground (arith, moved_length xs ys f.buffer f.sending (err e) p)
Step-lighter (wake m p) = ground arith
Step-lighter {f} (receive r rs p) = ground (arith, taken_errors f.received f.buffer rs r p)

abbrev pub CanStep : Fleet → Type 0
CanStep f = (g : Fleet) × Step f g

limit_cases : (n : ℕ) → (max_failures ≤ n) ⊎ (n < max_failures)
limit_cases n = ground arith

none_left : (n : ℕ) → n ≡ 0 → 0 < n → ⊥
none_left n e l = ground arith

-- What the workers can do while one of them has something in hand.
worker_step :
    (f : Fleet)
    → f.buffer ≡ []
    → (f.sending ≡ []) × (f.taken ≡ 0) × (f.fetching ≡ 0) × (f.resting ≡ 0) ⊎ CanStep f
worker_step f e = go f.sending f.taken f.fetching f.resting f.stop refl refl refl refl refl
  where
    go :
        (l : List (Result _)) (t b r : ℕ) (s : Bool)
        → f.sending ≡ l
        → f.taken ≡ t
        → f.fetching ≡ b
        → f.resting ≡ r
        → f.stop ≡ s
        → (f.sending ≡ []) × (f.taken ≡ 0) × (f.fetching ≡ 0) × (f.resting ≡ 0) ⊎ CanStep f
    go (ok x ∷ l) t b r s p q u v w = inr (_, send_ok [] l x p (ground arith))
    go (err x ∷ l) t b r s p q u v w = inr (_, send_err [] l x p (ground arith))
    go [] (suc t) b r true p q u v w = inr (_, quit t w q)
    go [] (suc t) b r false p q u v w = inr (_, begin t w q)
    go [] zero (suc b) r s p q u v w = inr (_, failed b (message "") u)
    go [] zero zero (suc r) s p q u v w = inr (_, wake r v)
    go [] zero zero zero s p q u v w = inl (p, q, u, v)

producer_step :
    (n : ℕ) (f : Fleet)
    → Sound n f
    → f.buffer ≡ []
    → (f.sending ≡ []) × (f.taken ≡ 0) × (f.fetching ≡ 0) × (f.resting ≡ 0)
    → Over f ⊎ CanStep f
producer_step n f h e k = go f.phase f.remaining f.idle refl refl refl
  where
    go : (p : Phase) (m i : ℕ) → f.phase ≡ p → f.remaining ≡ m → f.idle ≡ i → Over f ⊎ CanStep f
    go p m zero x y z = inl (record { all_exited = ground (arith, h.crew); drained = e })
    go checking zero (suc i) x y z = inr (_, all_handed x y)
    go checking (suc m) (suc i) x y z = elim (limit_cases f.fail_count) [
      | inl l ↦ inr (_, too_many x l)
      | inr l ↦ inr (_, offer m x y l)
    ]
    go offering zero (suc i) x y z = elim (none_left f.remaining y (h.some_left x)) [ ]
    go offering (suc m) (suc i) x y z = inr (_, hand m i x y z)
    go closed m (suc i) x y z = inr (_, leave i x z)

-- No interleaving of a batch deadlocks: what can be reached is over, or some goroutine can go on, with
-- no need of `Stop`.
pub run-Live : (n : ℕ) (stop : Bool) (f : Fleet) → Run (start n stop) f → Over f ⊎ CanStep f
run-Live n stop f run = go f.buffer refl
  where
    go : (l : List (Result _)) → f.buffer ≡ l → Over f ⊎ CanStep f
    go (r ∷ rs) e = inr (_, receive r rs e)
    go [] e = elim (worker_step f e) [
      | inl k ↦ producer_step n f (run-Sound n run (start-Sound n stop)) e k
      | inr c ↦ inr c
    ]
