-- ===== src/Messaging/Exchanges.antt =====
-- The exchanges and queues that declareTopology (internal/messaging/consumer.go) declares, in order.
use quantum_entropy_service.Common.{ℕ, String, Bool, List, [], ◌∷◌}
use quantum_entropy_service.Messaging.Broker.{Call, exchange_declare, queue_declare, queue_bind}
use quantum_entropy_service.Messaging.Events.{
  exchange_entropy_collected, exchange_key_events, exchange_audit_requests, exchange_audit_results,
  exchange_entropy_pool, routing_key_pool_low, routing_key_pool_ok,
}

-- One call on the channel: DeclareExchange and DeclareDeadLetterExchange, and the two calls of
-- DeclareQueue.
pub data Declaration : Type 0 where
  exchange : (name kind : String) → Declaration
  queue : (name : String) → Declaration
  binding : (name exchange_name routing_key : String) → Declaration

abbrev pub exchanges : List String
exchanges =
    exchange_entropy_collected ∷ exchange_key_events ∷ exchange_audit_requests
    ∷ exchange_audit_results ∷ exchange_entropy_pool ∷ []

pub record Queue : Type 0 where
  pub name : String
  pub exchange_name : String
  pub routing_key : String

abbrev queue_of : String → String → String → Queue
queue_of name exchange_name routing_key = record {
  name = name;
  exchange_name = exchange_name;
  routing_key = routing_key;
}

abbrev pub queues : List Queue
queues =
    queue_of "q.entropy.new" exchange_entropy_collected "entropy.new"
    ∷ queue_of "q.entropy.validated" exchange_entropy_collected "entropy.validated"
    ∷ queue_of "q.key.created" exchange_key_events "key.created"
    ∷ queue_of "q.key.exported" exchange_key_events "key.exported"
    ∷ queue_of "q.key.deleted" exchange_key_events "key.deleted"
    ∷ queue_of "q.audit.start" exchange_audit_requests "audit.start"
    ∷ queue_of "q.audit.complete" exchange_audit_results "audit.complete"
    ∷ queue_of "q.pool.low" exchange_entropy_pool routing_key_pool_low
    ∷ queue_of "q.pool.ok" exchange_entropy_pool routing_key_pool_ok
    ∷ []

abbrev declare_exchanges : List String → List Declaration → List Declaration
declare_exchanges [] rest = rest
declare_exchanges (name ∷ names) rest = exchange name "topic" ∷ declare_exchanges names rest

abbrev declare_queues : List Queue → List Declaration
declare_queues [] = []
declare_queues (q ∷ qs) =
    queue q.name ∷ binding q.name q.exchange_name q.routing_key ∷ declare_queues qs

abbrev pub topology : List Declaration
topology = declare_exchanges exchanges (exchange "dlx.quantum" "fanout" ∷ declare_queues queues)

-- The entry that a declaration leaves in the trace.
abbrev pub declared_call : ℕ → Declaration → Bool → Call
declared_call ch (exchange name kind) done = exchange_declare ch name kind done
declared_call ch (queue name) done = queue_declare ch name done
declared_call ch (binding name exchange_name routing_key) done =
    queue_bind ch name routing_key exchange_name done
