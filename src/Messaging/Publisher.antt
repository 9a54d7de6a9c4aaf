-- ===== src/Messaging/Publisher.antt =====
-- Publisher.Publish (internal/messaging/publisher.go) over a connection. What the JSON of an event is
-- does not matter here, only whether the encoding fails.
use quantum_entropy_service.Common.{
  ℕ, ◌≡◌, refl, String, true, List, ◌∷◌, Option, none, some, is_none, GoError, message, wrapped,
  Done, Result, ok, err, wrap, lift, ◌>>=◌, rewrap, continue, sym, subst,
}
use quantum_entropy_service.Messaging.Broker.{Trace, Oracle, published}
use quantum_entropy_service.Messaging.Exchanges.{topology}
use quantum_entropy_service.Messaging.Events.{Event, EventPublisher}
use quantum_entropy_service.Messaging.Connection.{Connection, new_connection, M, log, channel}
use quantum_entropy_service.Messaging.Connection.Sessions.{Use, use_all}
use quantum_entropy_service.Messaging.Connection.Ready.{AllDeclared}
use quantum_entropy_service.Messaging.Connection.Topology.{channel-AllDeclared}

abbrev IsOk : Result Done → Type 0
IsOk r = r ≡ ok tt

failed_sends : (x : GoError) → IsOk (err (wrapped "failed to publish event" x)) → ⊥
failed_sends x e = cc

failed_channel : (x : GoError) → IsOk (err (wrapped "failed to get channel" x)) → ⊥
failed_channel x e = cc

failed_marshal : (x : GoError) → IsOk (err (wrapped "failed to marshal event" x)) → ⊥
failed_marshal x e = cc

no_channel : {ch : ℕ} → none ≡ some ch → ⊥
no_channel e = cc

some-injective : {a b : ℕ} → some a ≡ some b → a ≡ b
some-injective e = cc

module _ (amqp : Oracle) (marshal : Event → Result String) where
  abbrev send_result : Option GoError → Result Done
  send_result none = ok tt
  send_result (some e) = err (wrapped "failed to publish event" e)

  -- PublishWithContext on the channel; with no channel the code would panic.
  abbrev send : String → String → Option ℕ → M Done
  send exchange routing_key none c =
      (err (message "invalid memory address or nil pointer dereference"), c)
  send exchange routing_key (some ch) c =
      let answer = amqp.fails c.trace in
      (send_result answer, log (published ch exchange routing_key (is_none answer)) c)

  unfoldable pub publish : String → String → Event → M Done
  unfolding channel
  publish exchange routing_key event = do
    _ ← wrap "failed to marshal event" (lift (marshal event))
    ch ← wrap "failed to get channel" (channel amqp)
    send exchange routing_key ch

  abbrev pub publisher : EventPublisher Connection
  unfolding publish
  publisher = record { publish = publish }

  -- Where a message went: out on a channel, after the whole topology was declared on that channel.
  abbrev pub SentOn : String → String → Trace → Type 0
  SentOn exchange routing_key trace =
      (ch : ℕ) × (before : Trace) × (trace ≡ published ch exchange routing_key true ∷ before)
      × AllDeclared ch topology before

  sent :
      (exchange routing_key : String) (ch : ℕ) (c : Connection)
      → AllDeclared ch topology c.trace
      → (send exchange routing_key (some ch) c).0 ≡ ok tt
      → SentOn exchange routing_key (send exchange routing_key (some ch) c).1.trace
  sent exchange routing_key ch c h e = go (amqp.fails c.trace) e
    where
      go :
          (o : Option GoError)
          → send_result o ≡ ok tt
          → SentOn exchange routing_key (published ch exchange routing_key (is_none o) ∷ c.trace)
      go none e = (ch, c.trace, refl, h)
      go (some x) e = elim (failed_sends x e) [ ]

  after_channel :
      (exchange routing_key : String) (r : Result (Option ℕ)) (c : Connection)
      → ((o : Option ℕ) → r ≡ ok o → (ch : ℕ) × (o ≡ some ch) × AllDeclared ch topology c.trace)
      → (continue (rewrap "failed to get channel" r) (send exchange routing_key) c).0 ≡ ok tt
      → SentOn exchange routing_key
          (continue (rewrap "failed to get channel" r) (send exchange routing_key) c).1.trace
  after_channel exchange routing_key (err x) c h e = elim (failed_channel x e) [ ]
  after_channel exchange routing_key (ok none) c h e = elim (no_channel (h none refl).1) [ ]
  after_channel exchange routing_key (ok (some ch)) c h e =
      let (ch', same, declared) = h (some ch) refl in
      sent exchange routing_key ch c
        (subst (λ n. AllDeclared n topology c.trace) (sym (some-injective same)) declared) e

  -- On a connection that has been used in any way, an event that `publish` reports as published has
  -- gone out with its exchange and routing key as the last call on the library, on a channel on which
  -- all of the topology had been declared before.
  pub publish-SentOn :
      (us : List Use) (exchange routing_key : String) (event : Event)
      → let (r, c) = publish exchange routing_key event (use_all amqp us new_connection) in
        r ≡ ok tt → SentOn exchange routing_key c.trace
  unfolding publish
  publish-SentOn us exchange routing_key event = go (marshal event)
    where
      c : Connection
      c = use_all amqp us new_connection

      go :
          (m : Result String)
          → let (r, c') =
              continue
                (rewrap "failed to marshal event" m)
                (λ _. wrap "failed to get channel" (channel amqp) >>= send exchange routing_key)
                c in
            r ≡ ok tt → SentOn exchange routing_key c'.trace
      go (err x) e = elim (failed_marshal x e) [ ]
      go (ok body) e =
          after_channel exchange routing_key (channel amqp c).0 (channel amqp c).1
            (channel-AllDeclared amqp us) e
