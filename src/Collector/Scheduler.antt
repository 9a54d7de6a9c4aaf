-- ===== src/Collector/Scheduler.antt =====
-- internal/collector/scheduler.go. A method works on a `World`: the store's tables, what the publisher
-- works on, and the network. `nil` for `pub` is `none`. Log lines are left out.
pub mod Records
pub mod Refill
pub mod Counts
pub mod Workers
pub mod Loop
pub mod Filled
pub mod Frames
use quantum_entropy_service.Common.{
  ℕ, zero, suc, ◌+◌, ◌-◌, ◌*◌, ◌/◌, Bool, true, false, not, ◌||◌, ◌&&◌, ◌==◌, ltb, leb, str_eq,
  if◌then◌else◌, List, [], ◌∷◌, length, take, drop, Option, none, some, String, Done, GoError,
  message, wrapped, Action, Result, ok, err, pure, fail, lift, wrap, guard, ◌>>=◌, ◌>>◌,
}
use quantum_entropy_service.Messaging.Events.{
  Event, entropy_new, entropy_validated, pool_ok, EventPublisher, exchange_entropy_collected,
  exchange_entropy_pool, routing_key_entropy_new, routing_key_entropy_validated,
  routing_key_pool_ok,
}
use quantum_entropy_service.Keymanager.Model.{Bytes, QuantumData}
use quantum_entropy_service.Keymanager.Stores.{EntropyStore}
use quantum_entropy_service.Keymanager.Service.{notified}
use Prim.Native.String.{◌++◌ as str_append}

abbrev pub entropy_chunk_bytes : ℕ
entropy_chunk_bytes = 1024

abbrev pub entropy_record_bytes : ℕ
entropy_record_bytes = 256

abbrev pub refill_workers : ℕ
refill_workers = 4

abbrev pub max_failures : ℕ
max_failures = 10

abbrev pub records_per_fetch : ℕ
records_per_fetch = entropy_chunk_bytes / entropy_record_bytes

pub record World (D B N : Type 0) : Type 0 where
  pub db : D
  pub broker : B
  pub net : N

-- What the HTTP client gives back: a status, and a body that may fail to be read.
pub record Response : Type 0 where
  pub status_code : ℕ
  pub body : Result String

-- net/http, encoding/json and encoding/base64: `data_of` is the field `data` of a JSON document,
-- and `status_text` the decimal form of a status code.
pub record Web (N : Type 0) : Type 0 where
  pub get : String → Action N Response
  pub data_of : String → Result String
  pub decode : String → Result Bytes
  pub encode : Bytes → String
  pub status_text : ℕ → String

-- The fields of `Scheduler` that do not change.
pub record Scheduler (D B : Type 0) : Type 0 where
  pub store : EntropyStore D
  pub publisher : Option (EventPublisher B)
  pub api_base_url : String
  pub low_watermark : ℕ
  pub high_watermark : ℕ

unfoldable pub new_scheduler :
    {D B : Type 0} → EntropyStore D → String → Option (EventPublisher B) → Scheduler D B
new_scheduler store api_base_url publisher = record {
  store = store;
  publisher = publisher;
  api_base_url = api_base_url;
  low_watermark = 200;
  high_watermark = 1000;
}

module _ {D B N : Type 0} (web : Web N) (s : Scheduler D B) where
  abbrev pub Call : Type 0 → Type 0
  Call A = World D B N → A × World D B N

  abbrev pub fetch_url : String
  fetch_url = str_append s.api_base_url "/api/v1/quantum-random?count=1024&pure=true"

  -- The checks on a response, in order.
  unfoldable pub decode_response : Response → Action N Bytes
  decode_response resp = do
    body ← wrap "read response body" (lift resp.body)
    guard (resp.status_code == 200) (
        message (
          str_append "quantum API returned status "
            (str_append (web.status_text resp.status_code) (str_append ": " body))))
    text ← wrap "parse response" (lift (web.data_of body))
    guard (not (str_eq text "")) (message "empty data received from API")
    wrap "invalid base64 data from API" (lift (web.decode text))

  unfoldable pub fetch : Action N Bytes
  unfolding decode_response
  fetch = do resp ← wrap "fetch from API" (web.get fetch_url); decode_response resp

  abbrev notify : String → String → Event → World D B N → World D B N
  notify exchange routing_key event w = record w {
    broker = notified s.publisher exchange routing_key event w.broker;
  }

  unfoldable pub publish_entropy_events : QuantumData → ℕ → World D B N → World D B N
  publish_entropy_events q byte_count w =
      notify exchange_entropy_collected routing_key_entropy_validated
        (entropy_validated q.id "LFD" byte_count q.id)
        (notify exchange_entropy_collected routing_key_entropy_new
          (entropy_new "LFD" q.data_base64 byte_count) w)

  unfoldable pub publish_pool_ok : ℕ → World D B N → World D B N
  publish_pool_ok count w =
      notify exchange_entropy_pool routing_key_pool_ok (pool_ok count s.high_watermark) w

  abbrev new_record : Bytes → QuantumData
  new_record chunk = record { id = 0; data_base64 = web.encode chunk; used = false; source = "LFD" }

  -- One round of the loop, given what `SaveEntropy` returned: how many were saved, 0 or 1.
  abbrev on_saved : Bytes → Result QuantumData → Call ℕ
  unfolding publish_entropy_events
  on_saved chunk (ok q) w = (1, publish_entropy_events q (length chunk) w)
  on_saved chunk (err e) w = (0, w)

  unfoldable pub save_record : Bytes → Call ℕ
  unfolding publish_entropy_events
  save_record chunk w =
      let (r, db) = s.store.save_entropy (new_record chunk) w.db in
      on_saved chunk r (record w { db = db })

  -- The loop over the offsets, as recursion on what is left of the data.
  unfoldable pub save_from : (fuel : ℕ) → Bytes → Call ℕ
  unfolding save_record
  save_from zero bytes w = (0, w)
  save_from (suc fuel) [] w = (0, w)
  save_from (suc fuel) (b ∷ bytes) w =
      let (one, w₁) = save_record (take entropy_record_bytes (b ∷ bytes)) w in
      let (more, w₂) = save_from fuel (drop entropy_record_bytes (b ∷ bytes)) w₁ in (one + more, w₂)

  unfoldable pub save_records : Bytes → Call ℕ
  unfolding save_from
  save_records bytes w = save_from (length bytes) bytes w

  -- The fan-in loop of runRefillBatch: what reaches the collector, in its order. Returns the records
  -- saved and the failures.
  unfoldable pub fold_results : List (Result Bytes) → Call (ℕ × ℕ)
  unfolding save_records
  fold_results [] w = ((0, 0), w)
  fold_results (err e ∷ results) w =
      let (counts, w₁) = fold_results results w in ((counts.0, suc counts.1), w₁)
  fold_results (ok bytes ∷ results) w =
      let (saved, w₁) = save_records bytes w in
      let (counts, w₂) = fold_results results w₁ in ((saved + counts.0, counts.1), w₂)

  -- What the four workers deliver for a number of jobs, in the order of its arrival: any list that the
  -- interleaving allows (Workers).
  module _ (deliver : ℕ → N → List (Result Bytes) × N) where
    unfoldable pub run_refill_batch : ℕ → Call (ℕ × ℕ)
    unfolding fold_results
    run_refill_batch fetches w =
        let (results, net) = deliver fetches w.net in fold_results results (record w { net = net })

    -- (needed + recordsPerFetch - 1) / recordsPerFetch
    abbrev pub fetches_for : ℕ → ℕ
    fetches_for count = (s.high_watermark - count + records_per_fetch - 1) / records_per_fetch

    -- The loop of collectEntropy: the count and the failures with which it ends, `none` when the fuel
    -- does not last.
    unfoldable pub refill : (fuel count failures : ℕ) → World D B N → Option (ℕ × ℕ) × World D B N
    unfolding run_refill_batch
    refill zero count failures w = (none, w)
    refill (suc fuel) count failures w =
        let (counts, w₁) = run_refill_batch (fetches_for count) w in
        let rest = refill fuel (count + counts.0) (failures + counts.1) w₁ in
        if not (ltb count s.high_watermark && ltb failures max_failures)
        then (some (count, failures), w)
        else if counts.0 == 0 && counts.1 == 0
        then (some (count, failures), w₁)
        else rest

    -- Each round of the loop that does not end it brings a saved record or a failure.
    abbrev pub refill_fuel : ℕ → ℕ
    refill_fuel count = suc (s.high_watermark - count + max_failures)

    abbrev on_refilled : Option (ℕ × ℕ) → World D B N → World D B N
    unfolding publish_pool_ok
    on_refilled none w = w
    on_refilled (some (count, failures)) w =
        if leb s.high_watermark count then publish_pool_ok count w else w

    abbrev on_counted : Result ℕ → World D B N → World D B N
    unfolding refill publish_pool_ok
    on_counted (err e) w = w
    on_counted (ok count) w =
        if leb s.low_watermark count
        then w
        else (let (end, w₁) = refill (refill_fuel count) count 0 w in on_refilled end w₁)

    unfoldable pub collect_entropy : World D B N → World D B N
    unfolding refill publish_pool_ok
    collect_entropy w =
        let (r, db) = s.store.count_all_unused_entropy w.db in on_counted r (record w { db = db })

-- `refillChan`, a channel that holds one signal: whether it is full.
unfoldable pub trigger_refill : Bool → Bool
trigger_refill full = true
