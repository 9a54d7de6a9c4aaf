-- ===== src/Audit/Runs.antt =====
-- RunFullAudit (internal/audit/service.go) and RunSuites (internal/audit/suites.go).
pub mod Announced
pub mod Fair
pub mod Frames
pub mod Returns
use quantum_entropy_service.Common.{
  ℤ, pos, negsuc, ℕ, zero, suc, ltb, Bool, true, false, ◌==◌, List, [], ◌∷◌, ◌++◌, String, str_eq,
  length, take, if◌then◌else◌, GoError, message, Result, ok, err, Option, none, some,
}
use quantum_entropy_service.Keymanager.Model.{Bytes, QuantumData}
use quantum_entropy_service.Keymanager.Stores.{EntropyStore}
use quantum_entropy_service.Keymanager.Service.{notified}
use quantum_entropy_service.Messaging.Events.{
  Event, audit_start, audit_complete, EventPublisher, exchange_audit_requests,
  exchange_audit_results, routing_key_audit_start, routing_key_audit_complete,
}
use quantum_entropy_service.Audit.Floats.{Floats}
use quantum_entropy_service.Audit.Validators.Basic.{
  count_repetitions, calculate_shannon_entropy, calculate_chi_square, estimate_pi_monte_carlo,
  calculate_compression_ratio,
}
use quantum_entropy_service.Audit.Suites.{SourceResult}
use quantum_entropy_service.Audit.Suites.Metrics.{Deliver}
use quantum_entropy_service.Audit.Suites.Registry.{SuiteDef, registry, find_suite}
use quantum_entropy_service.Audit.Samples.{Ran, returned, panicked, Sources, get_quantum_sample}

pub record World (D B R : Type 0) : Type 0 where
  pub db : D
  pub broker : B
  pub random : R

pub record Service (D B : Type 0) : Type 0 where
  pub store : EntropyStore D
  pub publisher : Option (EventPublisher B)

abbrev pub err_no_quantum_data : GoError
err_no_quantum_data = message "no quantum data in pool yet, wait for pool to fill"

abbrev pub err_unknown_suite : GoError
err_unknown_suite = message "unknown suite"

abbrev pub default_prng_seed : ℤ
default_prng_seed = pos 12345

pub record AuditMetrics (F : Type 0) : Type 0 where
  pub source : String
  pub shannon_entropy : F
  pub chi_square : F
  pub pi_estimate : F
  pub compression_ratio : F
  pub repetitions : ℕ
  pub base64_sample : String
  pub fingerprint_hex : String

pub record AuditReport (F : Type 0) : Type 0 where
  pub sample_size : ℕ
  pub results : List (AuditMetrics F)

pub record SuiteResult : Type 0 where
  pub suite_id : String
  pub name : String
  pub description : String
  pub min_note : String
  pub sample_size : ℕ
  pub indicative : Bool
  pub results : List SourceResult

-- A size as `audit.start` carries it; a negative one panics before that.
abbrev pub size_of : ℤ → ℕ
size_of (pos n) = n
size_of (negsuc n) = 0

abbrev effective_seed : ℤ → ℤ
effective_seed (pos zero) = default_prng_seed
effective_seed (pos (suc n)) = pos (suc n)
effective_seed (negsuc n) = negsuc n

module _ {D B R : Type 0} (fl : Floats) (src : Sources R) (svc : Service D B) where
  abbrev pub Call : Type 0 → Type 0
  Call A = World D B R → Ran (Result A) × World D B R

  abbrev notify : String → String → Event → World D B R → World D B R
  notify exchange routing_key event w = record w {
    broker = notified svc.publisher exchange routing_key event w.broker;
  }

  unfoldable pub announce_start : ℤ → World D B R → World D B R
  announce_start size w =
      notify exchange_audit_requests routing_key_audit_start (audit_start (size_of size)) w

  unfoldable pub announce_complete : ℕ → World D B R → World D B R
  announce_complete sample_size w =
      notify exchange_audit_results routing_key_audit_complete (audit_complete sample_size) w

  -- getCsprngSample
  unfoldable pub csprng_sample : ℕ → World D B R → Bytes × World D B R
  csprng_sample size w =
      let (sample, random) = src.csprng size w.random in (sample, record w { random = random })

  -- math.Round(x*scale) / scale
  abbrev rounded : ℕ → fl.F → fl.F
  rounded scale x = fl.div (fl.round (fl.mul x (fl.lit scale 0))) (fl.lit scale 0)

  unfoldable pub audit_source : String → Bytes → AuditMetrics fl.F
  unfolding calculate_shannon_entropy calculate_chi_square estimate_pi_monte_carlo
      calculate_compression_ratio count_repetitions
  audit_source name bytes = record {
    source = name;
    shannon_entropy = rounded 1000 (calculate_shannon_entropy fl bytes);
    chi_square = rounded 100 (calculate_chi_square fl bytes);
    pi_estimate = rounded 10000 (estimate_pi_monte_carlo fl bytes);
    compression_ratio = rounded 10000 (calculate_compression_ratio fl bytes);
    repetitions = count_repetitions bytes;
    base64_sample = src.encode bytes;
    fingerprint_hex = src.hex (take 16 bytes);
  }

  -- Both runs: the quantum sample, `audit.start`, what is made of the samples, `audit.complete`.
  abbrev pub on_sample :
      {A : Type 0} → ℤ → ℤ → (Bytes → Bytes → Bytes → A) → Ran (Result Bytes) → Call A
  on_sample size seed make panicked w = (panicked, w)
  on_sample size seed make (returned (err e)) w = (returned (err err_no_quantum_data), w)
  on_sample size seed make (returned (ok [])) w = (returned (err err_no_quantum_data), w)
  on_sample size seed make (returned (ok (b ∷ sample))) w =
      let real_size = length (b ∷ sample) in
      let (csprng, w₁) = csprng_sample real_size (announce_start size w) in
      (
        returned (ok (make (b ∷ sample) csprng (src.prng real_size seed))),
        announce_complete real_size w₁,
      )

  abbrev pub report : Bytes → Bytes → Bytes → AuditReport fl.F
  unfolding audit_source
  report quantum csprng prng = record {
    sample_size = length quantum;
    results =
        audit_source "Quantum (LFD)" quantum
        ∷ audit_source "Java SecureRandom (CSPRNG)" csprng
        ∷ audit_source "Java Random (LCRNG)" prng
        ∷ [];
  }

  unfoldable pub run_full_audit : ℤ → Call (AuditReport fl.F)
  unfolding get_quantum_sample announce_start announce_complete csprng_sample audit_source
  run_full_audit size w =
      let (sample, db) = get_quantum_sample src svc.store "LFD" size w.db in
      on_sample size default_prng_seed report sample (record w { db = db })

  -- The three runs of a suite; `orders` has the order of delivery of each.
  abbrev pub suite_result : SuiteDef → (orders : ℕ → Deliver) → Bytes → Bytes → Bytes → SuiteResult
  suite_result def orders quantum csprng prng = record {
    suite_id = def.id;
    name = def.name;
    description = def.description;
    min_note = def.min_note;
    sample_size = length quantum;
    indicative = ltb (length quantum) def.min_bytes;
    results =
        record { source = "Quantum (LFD)"; metrics = def.run (orders 0) quantum }
        ∷ record { source = "Java SecureRandom (CSPRNG)"; metrics = def.run (orders 1) csprng }
        ∷ record { source = "Java Random (LCRNG)"; metrics = def.run (orders 2) prng }
        ∷ [];
  }

  abbrev pub on_suite : Option SuiteDef → (ℕ → Deliver) → ℤ → ℤ → Call SuiteResult
  unfolding get_quantum_sample announce_start announce_complete csprng_sample
  on_suite none orders size seed w = (returned (err err_unknown_suite), w)
  on_suite (some def) orders size seed w =
      let (sample, db) = get_quantum_sample src svc.store "LFD" size w.db in
      on_sample size (effective_seed seed) (suite_result def orders) sample (record w { db = db })

  unfoldable pub run_suites : (orders : ℕ → Deliver) → String → ℤ → ℤ → Call SuiteResult
  unfolding find_suite get_quantum_sample announce_start announce_complete csprng_sample
  run_suites orders suite_id requested_size seed w =
      on_suite (find_suite suite_id (registry fl)) orders requested_size seed w
