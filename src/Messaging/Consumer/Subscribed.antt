-- ===== src/Messaging/Consumer/Subscribed.antt =====
-- Where the subscriptions of the consumer stand.
use quantum_entropy_service.Common.{
  ℕ, ◌≡◌, refl, String, true, List, ◌∷◌, Option, none, some, is_none, GoError, Result, ok, err,
  Done, ◌>>◌, continue,
}
use quantum_entropy_service.Messaging.Broker.{Trace, Oracle, consuming, prefetched}
use quantum_entropy_service.Messaging.Exchanges.{topology}
use quantum_entropy_service.Messaging.Connection.{Connection, new_connection, M, log, channel}
use quantum_entropy_service.Messaging.Connection.Sessions.{Use, use_all}
use quantum_entropy_service.Messaging.Connection.Ready.{AllDeclared, DeclaredOn, Ready, log-Ready}
use quantum_entropy_service.Messaging.Connection.Topology.{
  channel-Handed, use_all-Ready, new_connection-Ready,
}
use quantum_entropy_service.Messaging.Consumer.{
  outcome, subscribe, set_prefetch, consume, consume_with_prefetch,
}

no_error : (x : GoError) (r : Result Done) → r ≡ err x → r ≡ ok tt → ⊥
no_error x r f e = cc

module _ (amqp : Oracle) where
  -- The last call on the library has subscribed to the queue, on a channel on which the whole topology
  -- had been declared before.
  abbrev pub SubscribedOn : String → Trace → Type 0
  SubscribedOn queue_name trace =
      (ch : ℕ) × (before : Trace) × (trace ≡ consuming ch queue_name true ∷ before)
      × AllDeclared ch topology before

  -- A call that has succeeded has subscribed.
  abbrev Subscribes : String → Result Done × Connection → Type 0
  Subscribes queue_name p = p.0 ≡ ok tt → SubscribedOn queue_name p.1.trace

  subscribe-Subscribes :
      (queue_name : String) (o : Option ℕ) (c : Connection)
      → DeclaredOn o c.trace
      → Subscribes queue_name (subscribe amqp queue_name o c)
  subscribe-Subscribes queue_name none c h e = elim h [ ]
  subscribe-Subscribes queue_name (some ch) c h e = go (amqp.fails c.trace) e
    where
      go :
          (a : Option GoError)
          → outcome amqp a ≡ ok tt
          → SubscribedOn queue_name (consuming ch queue_name (is_none a) ∷ c.trace)
      go none e = (ch, c.trace, refl, h)
      go (some x) e = elim (no_error x _ refl e) [ ]

  consume-Subscribes :
      (queue_name : String) (c : Connection)
      → Ready c
      → Subscribes queue_name (consume amqp queue_name c)
  unfolding consume
  consume-Subscribes queue_name c h =
      go (channel amqp c).0 (channel amqp c).1 (channel-Handed amqp c h).handed
    where
      go :
          (r : Result (Option ℕ)) (c' : Connection)
          → ((o : Option ℕ) → r ≡ ok o → DeclaredOn o c'.trace)
          → Subscribes queue_name (continue r (subscribe amqp queue_name) c')
      go (err x) c' k e = elim (no_error x _ refl e) [ ]
      go (ok o) c' k e = subscribe-Subscribes queue_name o c' (k o refl) e

  prefetched-Subscribes :
      (queue_name : String) (prefetch : ℕ) (o : Option ℕ) (c : Connection)
      → Ready c
      → Subscribes queue_name ((set_prefetch amqp prefetch o >> consume amqp queue_name) c)
  prefetched-Subscribes queue_name prefetch none c h = λ e. elim (no_error _ _ refl e) [ ]
  prefetched-Subscribes queue_name prefetch (some ch) c h = go (amqp.fails c.trace)
    where
      go :
          (a : Option GoError)
          → let c' = log (prefetched ch prefetch (is_none a)) c in
            Subscribes queue_name (continue (outcome amqp a) (λ _. consume amqp queue_name) c')
      go none = consume-Subscribes queue_name _ (log-Ready _ c h)
      go (some x) = λ e. elim (no_error x _ refl e) [ ]

  with_prefetch-Subscribes :
      (queue_name : String) (prefetch : ℕ) (c : Connection)
      → Ready c
      → Subscribes queue_name (consume_with_prefetch amqp queue_name prefetch c)
  unfolding consume_with_prefetch
  with_prefetch-Subscribes queue_name prefetch c h =
      go (channel amqp c).0 (channel amqp c).1 (channel-Handed amqp c h).ready
    where
      go :
          (r : Result (Option ℕ)) (c' : Connection)
          → Ready c'
          → Subscribes queue_name
              (continue r (λ ch. set_prefetch amqp prefetch ch >> consume amqp queue_name) c')
      go (err x) c' k = λ e. elim (no_error x _ refl e) [ ]
      go (ok o) c' k = prefetched-Subscribes queue_name prefetch o c' k

  -- `Consume`, or `ConsumeWithPrefetch` where a limit is given.
  abbrev pub start_consumer : String → Option ℕ → M Done
  start_consumer queue_name none = consume amqp queue_name
  start_consumer queue_name (some prefetch) = consume_with_prefetch amqp queue_name prefetch

  -- On a connection that has been used in any way, whatever the broker answers: where `Consume` or
  -- `ConsumeWithPrefetch` reports no error, the last call on the library has subscribed to the queue,
  -- on a channel on which all of the topology had been declared before.
  pub consume-SubscribedOn :
      (us : List Use) (queue_name : String) (prefetch : Option ℕ)
      → let (r, c) = start_consumer queue_name prefetch (use_all amqp us new_connection) in
        r ≡ ok tt → SubscribedOn queue_name c.trace
  consume-SubscribedOn us queue_name none =
      consume-Subscribes queue_name (use_all amqp us new_connection)
        (use_all-Ready amqp us new_connection (new_connection-Ready amqp))
  consume-SubscribedOn us queue_name (some prefetch) =
      with_prefetch-Subscribes queue_name prefetch (use_all amqp us new_connection)
        (use_all-Ready amqp us new_connection (new_connection-Ready amqp))
