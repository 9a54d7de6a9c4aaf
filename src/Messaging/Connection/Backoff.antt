-- ===== src/Messaging/Connection/Backoff.antt =====
-- The negative cache of failed dials: no second dial within the reconnect delay, and none of it left
-- after a close.
use quantum_entropy_service.Common.{
  subst, sym, ℕ, ◌<◌, ◌-◌, ◌≡◌, refl, ◌∷◌, none, some, GoError, wrapped, err, arith,
}
use quantum_entropy_service.Messaging.Broker.{Oracle, refused, dial_failed, asked}
use quantum_entropy_service.Messaging.Connection.{
  Connection, log, replay, live_session, cached_dial_error, cache_dial_failure, dial_locked,
  connect_locked, channel, close,
}

module _ (amqp : Oracle) where
  replay-waits :
      (c : Connection) (t : ℕ) (e : GoError)
      → c.last_dial_err ≡ some e
      → amqp.now c.trace - t < c.reconnect_delay
      → replay amqp (some t) c
        ≡ (err (wrapped "RabbitMQ unavailable, last dial failed" e), log asked c)
  replay-waits c t e p q = ground arith

  -- With no session, and a failed dial less than the reconnect delay ago, `channel` dials nothing,
  -- declares nothing, changes nothing but the trace by one reading of the clock, and returns the
  -- cause of the failed dial.
  pub channel-waits :
      (c : Connection) (t : ℕ) (e : GoError)
      → c.session ≡ none
      → c.last_dial_fail ≡ some t
      → c.last_dial_err ≡ some e
      → amqp.now c.trace - t < c.reconnect_delay
      → channel amqp c ≡ (err (wrapped "RabbitMQ unavailable, last dial failed" e), log asked c)
  unfolding channel connect_locked live_session dial_locked cached_dial_error
  channel-waits c t e s f g w = ground arith

  -- With no session and nothing remembered, a dial that is refused is the one call made on the
  -- library, is remembered with the time and the cause, and is returned.
  channel-refused :
      (c : Connection) (e : GoError)
      → c.session ≡ none
      → c.last_dial_fail ≡ none
      → amqp.dial c.trace ≡ refused e
      → channel amqp c ≡ (
        err (wrapped "dial RabbitMQ" e),
        record c {
          last_dial_fail = some (amqp.now (dial_failed ∷ c.trace));
          last_dial_err = some e;
          trace = asked ∷ dial_failed ∷ c.trace;
        },
      )
  unfolding channel connect_locked live_session dial_locked cached_dial_error cache_dial_failure
  channel-refused c e s f d = ground arith

  close-forgets :
      (c : Connection)
      → ((close amqp c).1.session ≡ none) × ((close amqp c).1.last_dial_fail ≡ none)
  unfolding close
  close-forgets c = ground arith

  -- A dial that was refused is not tried again within the reconnect delay: the next `channel` returns
  -- the cause of the first, and calls nothing but the clock.
  pub channel-refused_once :
      (c : Connection) (e : GoError)
      → c.session ≡ none
      → c.last_dial_fail ≡ none
      → amqp.dial c.trace ≡ refused e
      → amqp.now (asked ∷ dial_failed ∷ c.trace) - amqp.now (dial_failed ∷ c.trace)
        < c.reconnect_delay
      → let c' = (channel amqp c).1 in
        channel amqp c' ≡ (err (wrapped "RabbitMQ unavailable, last dial failed" e), log asked c')
  channel-refused_once c e s f d w =
      subst
        (λ q.
          channel amqp q.1
          ≡ (err (wrapped "RabbitMQ unavailable, last dial failed" e), log asked q.1))
        (sym (channel-refused c e s f d)) (channel-waits _ _ e s refl refl w)

  -- After a close the next `channel` dials at once, however recent the last failed dial: a dial that is
  -- refused then is made and returned.
  pub close-channel :
      (c : Connection) (e : GoError)
      → let c' = (close amqp c).1 in
        amqp.dial c'.trace ≡ refused e
        → channel amqp c' ≡ (
          err (wrapped "dial RabbitMQ" e),
          record c' {
            last_dial_fail = some (amqp.now (dial_failed ∷ c'.trace));
            last_dial_err = some e;
            trace = asked ∷ dial_failed ∷ c'.trace;
          },
        )
  close-channel c e d = channel-refused (close amqp c).1 e (close-forgets c).0 (close-forgets c).1 d
