-- ===== src/Collector/Scheduler/Workers/Bounds.antt =====
-- What every interleaving of runRefillBatch keeps: no result is lost or invented, no more failures than
-- the limit and the workers, and never a deadlock.
use quantum_entropy_service.Common.{
  ◌-◌, ℕ, suc, ◌+◌, ◌≤◌, ◌<◌, ◌≡◌, Bool, true, false, List, [], ◌∷◌, ◌++◌, length, length-append,
  Result, ok, err, refl, ap, ◌∙◌, arith,
}
use quantum_entropy_service.Keymanager.Model.{Bytes}
use quantum_entropy_service.Collector.Scheduler.{refill_workers, max_failures}
use quantum_entropy_service.Collector.Scheduler.Workers.{
  Phase, checking, offering, closed, Fleet, start, Step, all_handed, too_many, offer, hand, abort,
  leave, quit, begin, succeed, failed, send_ok, send_err, wake, receive, Run, here, then_, stopping,
}

abbrev pub errors : List (Result Bytes) → ℕ
errors [] = 0
errors (ok b ∷ rs) = errors rs
errors (err e ∷ rs) = suc (errors rs)

errors-append : (xs ys : List (Result Bytes)) → errors (xs ++ ys) ≡ errors xs + errors ys
errors-append [] ys = omega arith
errors-append (ok b ∷ xs) ys = errors-append xs ys
errors-append (err e ∷ xs) ys = omega (arith, errors-append xs ys)

pub errors_le : (xs : List (Result Bytes)) → errors xs ≤ length xs
errors_le [] = omega arith
errors_le (ok b ∷ xs) = omega (arith, errors_le xs)
errors_le (err e ∷ xs) = omega (arith, errors_le xs)

-- The jobs in a worker's hand.
abbrev pub held : Fleet → ℕ
held f = f.taken + f.fetching

abbrev pub results : Fleet → ℕ
results f = length f.sending + length f.buffer + length f.received

abbrev pub all_errors : Fleet → ℕ
all_errors f = errors f.sending + errors f.buffer + errors f.received

abbrev pub room : Phase → ℕ
room offering = max_failures - 1 + refill_workers
room _ = max_failures + refill_workers

pub record Sound (fetches : ℕ) (f : Fleet) : Type 0 where
  pub crew : f.idle + held f + f.resting + f.exited + length f.sending ≡ refill_workers
  pub jobs : f.remaining + held f + results f ≤ fetches
  pub counted : all_errors f ≡ f.fail_count
  pub bounded : f.fail_count + held f ≤ room f.phase
  pub some_left : f.phase ≡ offering → 0 < f.remaining
  pub room_left : length f.buffer ≤ refill_workers

pub moved_length :
    (xs ys buffer sending : List (Result Bytes)) (r : Result Bytes)
    → sending ≡ xs ++ r ∷ ys
    → (length sending ≡ suc (length (xs ++ ys))) × (length (buffer ++ r ∷ []) ≡ suc (length buffer))
moved_length xs ys buffer sending r e = (
  ap length e ∙ omega (arith, length-append xs (r ∷ ys), length-append xs ys),
  omega (arith, length-append buffer (r ∷ [])),
)

moved_errors :
    (xs ys buffer sending : List (Result Bytes)) (r : Result Bytes)
    → sending ≡ xs ++ r ∷ ys
    → errors sending + errors buffer ≡ errors (xs ++ ys) + errors (buffer ++ r ∷ [])
moved_errors xs ys buffer sending (ok b) e =
    ap (λ l. errors l + errors buffer) e
    ∙ omega
        (arith, errors-append xs (ok b ∷ ys), errors-append xs ys, errors-append buffer (ok b ∷ []))
moved_errors xs ys buffer sending (err x) e =
    ap (λ l. errors l + errors buffer) e
    ∙ omega (
      arith,
      errors-append xs (err x ∷ ys),
      errors-append xs ys,
      errors-append buffer (err x ∷ []),
    )

pub taken_errors :
    (received buffer rs : List (Result Bytes)) (r : Result Bytes)
    → buffer ≡ r ∷ rs
    → (errors buffer + errors received ≡ errors rs + errors (received ++ r ∷ []))
      × (length buffer ≡ suc (length rs))
      × (length (received ++ r ∷ []) ≡ suc (length received))
taken_errors received buffer rs (ok b) e = (
  ap (λ l. errors l + errors received) e ∙ omega (arith, errors-append received (ok b ∷ [])),
  ap length e,
  omega (arith, length-append received (ok b ∷ [])),
)
taken_errors received buffer rs (err x) e = (
  ap (λ l. errors l + errors received) e ∙ omega (arith, errors-append received (err x ∷ [])),
  ap length e,
  omega (arith, length-append received (err x ∷ [])),
)

abbrev is_offering : Phase → Bool
is_offering offering = true
is_offering _ = false

phase_clash : checking ≡ offering → ⊥
phase_clash e = cc

room_le : (p : Phase) → room p ≤ max_failures + refill_workers
room_le checking = omega arith
room_le offering = omega arith
room_le closed = omega arith

pub start-Sound : (fetches : ℕ) (stop : Bool) → Sound fetches (start fetches stop)
unfolding start
start-Sound fetches stop = record {
  crew = refl;
  jobs = omega arith;
  counted = refl;
  bounded = omega arith;
  some_left = λ e. elim (phase_clash e) [ ];
  room_left = omega arith;
}

module _ (n : ℕ) where
  pub Step-Sound : {f g : Fleet} → Step f g → Sound n f → Sound n g
  Step-Sound (all_handed p q) h = ground arith
  Step-Sound (too_many p q) h = ground arith
  Step-Sound (offer m p q l) h = ground arith
  Step-Sound (hand m i p q l) h = ground arith
  Step-Sound (abort p q) h = ground arith
  Step-Sound (leave i p q) h = ground arith
  Step-Sound (quit t p q) h = ground arith
  Step-Sound (begin t p q) h = ground arith
  Step-Sound (succeed b bytes p) h = ground arith
  Step-Sound (failed b e p) h = ground arith
  Step-Sound {f} (send_ok xs ys bytes p q) h = ground (
    arith,
    moved_length xs ys f.buffer f.sending (ok bytes) p,
    moved_errors xs ys f.buffer f.sending (ok bytes) p,
  )
  Step-Sound {f} (send_err xs ys e p q) h = ground (
    arith,
    moved_length xs ys f.buffer f.sending (err e) p,
    moved_errors xs ys f.buffer f.sending (err e) p,
  )
  Step-Sound (wake m p) h = ground arith
  Step-Sound {f} (receive r rs p) h = ground (arith, taken_errors f.received f.buffer rs r p)

  pub run-Sound : {f g : Fleet} → Run f g → Sound n f → Sound n g
  run-Sound here h = h
  run-Sound (then_ run step) h = Step-Sound step (run-Sound run h)
  run-Sound (stopping run) h =
      let k = run-Sound run h in
      record {
        crew = k.crew;
        jobs = k.jobs;
        counted = k.counted;
        bounded = k.bounded;
        some_left = k.some_left;
        room_left = k.room_left;
      }

  -- In every interleaving of a batch of `n` fetches the collector receives at most `n` results, of
  -- them at most as many errors as the limit and the workers together; and while it runs the results
  -- channel holds at most its capacity.
  pub run-Bounded :
      (stop : Bool) (f : Fleet)
      → Run (start n stop) f
      → (length f.received ≤ n)
        × (errors f.received ≤ max_failures + refill_workers)
        × (length f.buffer ≤ refill_workers)
  run-Bounded stop f run =
      let h = run-Sound run (start-Sound n stop) in
      (omega (arith, h.jobs), omega (arith, h.counted, h.bounded, room_le f.phase), h.room_left)
