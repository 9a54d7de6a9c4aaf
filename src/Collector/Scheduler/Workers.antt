-- ===== src/Collector/Scheduler/Workers.antt =====
-- runRefillBatch as a step relation: four workers, the producer of jobs, the results channel and the
-- collector, in any interleaving. Workers are interchangeable, so they are counted by what they do.
pub mod Bounds
pub mod Delivery
pub mod Progress
pub mod Batch
use quantum_entropy_service.Common.{
  ℕ, zero, suc, ◌+◌, ◌≤◌, ◌<◌, ◌≡◌, Bool, true, false, List, [], ◌∷◌, ◌++◌, length, GoError, Result,
  ok, err, refl,
}
use quantum_entropy_service.Keymanager.Model.{Bytes}
use quantum_entropy_service.Collector.Scheduler.{refill_workers, max_failures}

-- The producer is about to test the failures, blocked on `jobs <-`, or gone (`jobs` is closed).
pub data Phase : Type 0 where
  checking offering closed : Phase

pub record Fleet : Type 0 where
  pub phase : Phase
  -- jobs not handed out yet
  pub remaining : ℕ
  -- workers that wait for a job, hold one, fetch, sleep after a failure, and have returned
  pub idle : ℕ
  pub taken : ℕ
  pub fetching : ℕ
  pub resting : ℕ
  pub exited : ℕ
  -- what workers are about to send, what the channel holds, and what the collector has received
  pub sending : List (Result Bytes)
  pub buffer : List (Result Bytes)
  pub received : List (Result Bytes)
  pub fail_count : ℕ
  -- whether stopChan is closed
  pub stop : Bool

unfoldable pub start : (fetches : ℕ) → Bool → Fleet
start fetches stop = record {
  phase = checking;
  remaining = fetches;
  idle = refill_workers;
  taken = 0;
  fetching = 0;
  resting = 0;
  exited = 0;
  sending = [];
  buffer = [];
  received = [];
  fail_count = 0;
  stop = stop;
}

pub data Step : Fleet → Fleet → Type 0 where
  -- the producer
  all_handed :
      {f : Fleet} → f.phase ≡ checking → f.remaining ≡ 0 → Step f (record f { phase = closed })
  too_many :
      {f : Fleet}
      → f.phase ≡ checking
      → max_failures ≤ f.fail_count
      → Step f (record f { phase = closed })
  offer :
      {f : Fleet} (n : ℕ)
      → f.phase ≡ checking
      → f.remaining ≡ suc n
      → f.fail_count < max_failures
      → Step f (record f { phase = offering })
  hand :
      {f : Fleet} (n i : ℕ)
      → f.phase ≡ offering
      → f.remaining ≡ suc n
      → f.idle ≡ suc i
      → Step f (record f { phase = checking; remaining = n; idle = i; taken = suc f.taken })
  abort : {f : Fleet} → f.phase ≡ offering → f.stop ≡ true → Step f (record f { phase = closed })
  -- a worker
  leave :
      {f : Fleet} (i : ℕ)
      → f.phase ≡ closed
      → f.idle ≡ suc i
      → Step f (record f { idle = i; exited = suc f.exited })
  quit :
      {f : Fleet} (t : ℕ)
      → f.stop ≡ true
      → f.taken ≡ suc t
      → Step f (record f { taken = t; exited = suc f.exited })
  begin :
      {f : Fleet} (t : ℕ)
      → f.stop ≡ false
      → f.taken ≡ suc t
      → Step f (record f { taken = t; fetching = suc f.fetching })
  succeed :
      {f : Fleet} (b : ℕ) (bytes : Bytes)
      → f.fetching ≡ suc b
      → Step f (record f { fetching = b; sending = ok bytes ∷ f.sending })
  failed :
      {f : Fleet} (b : ℕ) (e : GoError)
      → f.fetching ≡ suc b
      → Step f
          (record f { fetching = b; sending = err e ∷ f.sending; fail_count = suc f.fail_count })
  send_ok :
      {f : Fleet} (xs ys : List (Result Bytes)) (bytes : Bytes)
      → f.sending ≡ xs ++ ok bytes ∷ ys
      → length f.buffer < refill_workers
      → Step f
          (record f { sending = xs ++ ys; buffer = f.buffer ++ ok bytes ∷ []; idle = suc f.idle })
  send_err :
      {f : Fleet} (xs ys : List (Result Bytes)) (e : GoError)
      → f.sending ≡ xs ++ err e ∷ ys
      → length f.buffer < refill_workers
      → Step f (record f {
        sending = xs ++ ys;
        buffer = f.buffer ++ err e ∷ [];
        resting = suc f.resting;
      })
  wake :
      {f : Fleet} (n : ℕ) → f.resting ≡ suc n → Step f (record f { resting = n; idle = suc f.idle })
  -- the collector
  receive :
      {f : Fleet} (r : Result Bytes) (rs : List (Result Bytes))
      → f.buffer ≡ r ∷ rs
      → Step f (record f { buffer = rs; received = f.received ++ r ∷ [] })

pub data Run : Fleet → Fleet → Type 0 where
  here : {f : Fleet} → Run f f
  then_ : {f g h : Fleet} → Run f g → Step g h → Run f h
  -- Stop, called at any time
  stopping : {f g : Fleet} → Run f g → Run f (record g { stop = true })

-- The batch is over when all workers have returned and the channel is drained.
pub record Over (f : Fleet) : Type 0 where
  pub all_exited : f.exited ≡ refill_workers
  pub drained : f.buffer ≡ []
