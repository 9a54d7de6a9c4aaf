-- ===== src/Messaging/Broker.antt =====
-- The AMQP library as the connection sees it: a trace of the calls made on it, newest first, and an
-- oracle that answers each call from all that went before. Nothing is assumed of the answers. A new
-- session or channel is a new object: its handle is the length of the trace at that moment.
use quantum_entropy_service.Common.{ℕ, String, Bool, List, GoError, Option}

pub data Call : Type 0 where
  -- amqp.Dial that gave a session, and one that gave none
  dialled : (session : ℕ) → Call
  dial_failed : Call
  -- session.Channel() that gave a channel, and one that gave none
  opened : (session channel : ℕ) → Call
  open_failed : (session : ℕ) → Call
  session_closed channel_closed : ℕ → Call
  -- a declaration on a channel, and whether it succeeded
  exchange_declare : (channel : ℕ) (name kind : String) (done : Bool) → Call
  queue_declare : (channel : ℕ) (name : String) (done : Bool) → Call
  queue_bind : (channel : ℕ) (name routing_key exchange : String) (done : Bool) → Call
  -- ch.PublishWithContext, and whether it succeeded
  published : (channel : ℕ) (exchange routing_key : String) (done : Bool) → Call
  -- ch.Consume and ch.Qos, and whether they succeeded
  consuming : (channel : ℕ) (queue : String) (done : Bool) → Call
  prefetched : (channel prefetch : ℕ) (done : Bool) → Call
  -- IsClosed() or time.Now()
  asked : Call

abbrev pub Trace : Type 0
Trace = List Call

-- What `dial` or `Channel` returns: an error, neither an error nor an object, or an object.
pub data Answer : Type 0 where
  refused : GoError → Answer
  nothing : Answer
  given : Answer

pub record Oracle : Type 0 where
  pub dial : Trace → Answer
  pub channel : (session : ℕ) → Trace → Answer
  pub is_session_closed : ℕ → Trace → Bool
  pub is_channel_closed : ℕ → Trace → Bool
  pub now : Trace → ℕ
  -- the error of a declaration, a publication, a subscription or a close
  pub fails : Trace → Option GoError
