-- ===== src/Messaging/Consumer.antt =====
-- Consume and ConsumeWithPrefetch (internal/messaging/consumer.go) over a connection, and the loop of
-- the goroutine that Consume starts.
pub mod Subscribed
use quantum_entropy_service.Common.{
  ℕ, String, Option, none, some, is_none, GoError, message, Done, Result, ok, err, ◌>>=◌, ◌>>◌,
}
use quantum_entropy_service.Keymanager.Model.{Bytes}
use quantum_entropy_service.Messaging.Broker.{Oracle, consuming, prefetched}
use quantum_entropy_service.Messaging.Connection.{M, log, channel}

module _ (amqp : Oracle) where
  abbrev outcome : Option GoError → Result Done
  outcome none = ok tt
  outcome (some e) = err e

  abbrev no_channel : GoError
  no_channel = message "invalid memory address or nil pointer dereference"

  -- ch.Consume; with no channel the code would panic.
  abbrev subscribe : String → Option ℕ → M Done
  subscribe queue_name none c = (err no_channel, c)
  subscribe queue_name (some ch) c =
      let answer = amqp.fails c.trace in
      (outcome answer, log (consuming ch queue_name (is_none answer)) c)

  abbrev set_prefetch : ℕ → Option ℕ → M Done
  set_prefetch prefetch none c = (err no_channel, c)
  set_prefetch prefetch (some ch) c =
      let answer = amqp.fails c.trace in
      (outcome answer, log (prefetched ch prefetch (is_none answer)) c)

  -- The goroutine is started when this returns no error.
  unfoldable pub consume : String → M Done
  unfolding channel
  consume queue_name = do ch ← channel amqp; subscribe queue_name ch

  unfoldable pub consume_with_prefetch : String → ℕ → M Done
  unfolding channel consume
  consume_with_prefetch queue_name prefetch = do
    ch ← channel amqp
    set_prefetch prefetch ch
    consume queue_name

-- A handler of messages, on what it works on.
abbrev pub MessageHandler : Type 0 → Type 0
MessageHandler S = Bytes → S → Result Done × S

pub data Settlement : Type 0 where
  -- msg.Ack(false), and msg.Nack(false, true)
  acked requeued : Settlement

abbrev pub settlement : Result Done → Settlement
settlement (ok _) = acked
settlement (err e) = requeued

-- One round of the goroutine's loop.
unfoldable pub process : {S : Type 0} → MessageHandler S → Bytes → S → Settlement × S
process handler body s = let (r, s') = handler body s in (settlement r, s')
