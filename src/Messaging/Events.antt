-- ===== src/Messaging/Events.antt =====
-- internal/messaging/events.go and the interface of publisher.go. Each payload carries a time stamp
-- too, and that of a complete audit its results; no code reads these back, and they are left out here.
use quantum_entropy_service.Common.{ℕ, String, List, [], ◌∷◌, ◌++◌, ◌≡◌, Done, Action, ok, refl}

abbrev pub exchange_entropy_collected : String
exchange_entropy_collected = "entropy.collected"

abbrev pub exchange_key_events : String
exchange_key_events = "key.events"

abbrev pub exchange_audit_requests : String
exchange_audit_requests = "audit.requests"

abbrev pub exchange_audit_results : String
exchange_audit_results = "audit.results"

abbrev pub exchange_entropy_pool : String
exchange_entropy_pool = "entropy.pool"

abbrev pub routing_key_entropy_new : String
routing_key_entropy_new = "entropy.new"

abbrev pub routing_key_entropy_validated : String
routing_key_entropy_validated = "entropy.validated"

abbrev pub routing_key_key_created : String
routing_key_key_created = "key.created"

abbrev pub routing_key_key_exported : String
routing_key_key_exported = "key.exported"

abbrev pub routing_key_key_deleted : String
routing_key_key_deleted = "key.deleted"

abbrev pub routing_key_audit_start : String
routing_key_audit_start = "audit.start"

abbrev pub routing_key_audit_complete : String
routing_key_audit_complete = "audit.complete"

abbrev pub routing_key_pool_low : String
routing_key_pool_low = "entropy.pool.low"

abbrev pub routing_key_pool_ok : String
routing_key_pool_ok = "entropy.pool.ok"

-- The payload types, one constructor for each. `AuditCompleteEvent.Results` is left out.
pub data Event : Type 0 where
  entropy_new : (source base64_data : String) (byte_count : ℕ) → Event
  entropy_validated : (id : ℕ) (source : String) (byte_count pool_size : ℕ) → Event
  key_created : (id : ℕ) (alias : String) (key_size : ℕ) → Event
  key_exported : (id : ℕ) (alias algorithm : String) → Event
  key_deleted : (id : ℕ) (alias : String) → Event
  audit_start : (requested_size : ℕ) → Event
  audit_complete : (sample_size : ℕ) → Event
  pool_low : (current_count threshold : ℕ) → Event
  pool_ok : (current_count threshold : ℕ) → Event

pub record Message : Type 0 where
  pub exchange : String
  pub routing_key : String
  pub event : Event

-- `EventPublisher`. `B` is what a publisher works on: a connection, or a test's list.
pub record EventPublisher (B : Type 0) : Type 0 where
  pub publish : String → String → Event → Action B Done

-- A publisher whose calls can be counted: each call, failed or not, is the next attempt.
pub record IsEventPublisher {B : Type 0} (publisher : EventPublisher B)
    (attempts : B → List Message) : Type 0 where
  pub publishes :
      (exchange routing_key : String) (event : Event) (b : B)
      → attempts (publisher.publish exchange routing_key event b).1
        ≡ attempts b
          ++ record { exchange = exchange; routing_key = routing_key; event = event } ∷ []

-- A publisher that keeps what it is given, as the tests' fake does.
abbrev pub recorder : EventPublisher (List Message)
recorder = record {
  publish = λ exchange routing_key event sent. (
    ok tt,
    sent ++ record { exchange = exchange; routing_key = routing_key; event = event } ∷ [],
  );
}

pub recorder-IsEventPublisher : IsEventPublisher recorder (λ sent. sent)
recorder-IsEventPublisher = record { publishes = λ exchange routing_key event sent. refl }
