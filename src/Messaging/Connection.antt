-- ===== src/Messaging/Connection.antt =====
-- internal/messaging/connection.go, and declareTopology of consumer.go. Channel runs under the mutex, so
-- here calls follow one another (Shared has many goroutines). `record Connection` holds the fields that
-- change, and the trace of the calls made on the AMQP library. The elapsed time is left out of the text
-- of a replayed error.

pub mod Handles
pub mod Accounting
pub mod Sessions
pub mod Shared
pub mod Ready
pub mod Topology
pub mod Backoff
use Prim.Native.String.{◌++◌ as str_append}
use quantum_entropy_service.Common.{
  ◌++◌, is_none, ℕ, ◌-◌, String, Bool, true, false, not, ltb, leb, if◌then◌else◌, List, [], ◌∷◌,
  length, GoError, message, wrapped, Option, none, some, Done, Action, Result, ok, err, pure, fail,
  lift, wrap, attempt, ◌>>=◌, ◌>>◌,
}
use quantum_entropy_service.Messaging.Broker.{
  Call, Trace, Answer, Oracle, dialled, dial_failed, opened, open_failed, session_closed,
  channel_closed, asked, refused, nothing, given,
}
use quantum_entropy_service.Messaging.Exchanges.{
  Declaration, exchange, queue, binding, topology, declared_call,
}

abbrev pub err_nil_session : GoError
err_nil_session = message "dial returned no amqp session"

abbrev pub err_nil_channel : GoError
err_nil_channel = message "amqp returned a nil channel"

pub record Connection : Type 0 where
  pub session : Option ℕ
  pub channel : Option ℕ
  pub topology_declared : Bool
  -- `none` is the zero time
  pub last_dial_fail : Option ℕ
  pub last_dial_err : Option GoError
  pub reconnect_delay : ℕ
  pub trace : Trace

-- 5 * time.Second, in nanoseconds
unfoldable pub new_connection : Connection
new_connection = record {
  session = none;
  channel = none;
  topology_declared = false;
  last_dial_fail = none;
  last_dial_err = none;
  reconnect_delay = 5_000_000_000;
  trace = [];
}

abbrev pub M : Type 0 → Type 0
M A = Action Connection A

abbrev pub log : Call → Connection → Connection
log call c = record c { trace = call ∷ c.trace }

module _ (amqp : Oracle) where
  -- time.Now()
  abbrev pub now : M ℕ
  now c = (ok (amqp.now c.trace), log asked c)

  -- `c.session` if it is there and not closed
  abbrev live_of : Option ℕ → M (Option ℕ)
  live_of none c = (ok none, c)
  live_of (some s) c = (ok (if amqp.is_session_closed s c.trace then none else some s), log asked c)

  unfoldable pub live_session : M (Option ℕ)
  live_session c = live_of c.session c

  abbrev usable_of : Option ℕ → M Bool
  usable_of none c = (ok false, c)
  usable_of (some ch) c = (ok (not (amqp.is_channel_closed ch c.trace)), log asked c)

  -- c.channel != nil && !c.channel.IsClosed()
  unfoldable pub channel_usable : M Bool
  channel_usable c = usable_of c.channel c

  abbrev cause : Option GoError → GoError
  cause none = message "%!w(<nil>)"
  cause (some e) = e

  abbrev replay : Option ℕ → M Done
  replay none c = (ok tt, c)
  replay (some t) c = (
    if leb c.reconnect_delay (amqp.now c.trace - t)
        then ok tt
        else err (wrapped "RabbitMQ unavailable, last dial failed" (cause c.last_dial_err)),
    log asked c,
  )

  unfoldable pub cached_dial_error : M Done
  cached_dial_error c = replay c.last_dial_fail c

  unfoldable pub cache_dial_failure : GoError → M Done
  cache_dial_failure e c = (
    ok tt,
    record (log asked c) { last_dial_fail = some (amqp.now c.trace); last_dial_err = some e },
  )

  -- `_ = session.Close()`
  abbrev drop_session : ℕ → Connection → Connection
  drop_session s c = log (session_closed s) c

  abbrev pub drop_old_session : Option ℕ → Connection → Connection
  drop_old_session none c = c
  drop_old_session (some s) c = drop_session s c

  abbrev pub drop_old_channel : Option ℕ → Connection → Connection
  drop_old_channel none c = c
  drop_old_channel (some ch) c = log (channel_closed ch) c

  abbrev fail_with : GoError → GoError → M Done
  fail_with recorded returned = do cache_dial_failure recorded; fail returned

  -- The new session and channel take the place of the old ones.
  unfoldable pub install : (session channel : ℕ) → M Done
  install s ch c = (
    ok tt,
    record (drop_old_session c.session c) {
      session = some s;
      channel = some ch;
      topology_declared = false;
      last_dial_fail = none;
      last_dial_err = none;
    },
  )

  abbrev on_opened : ℕ → Answer → M Done
  on_opened s (refused e) c =
      fail_with e (wrapped "open channel" e) (drop_session s (log (open_failed s) c))
  on_opened s nothing c =
      fail_with err_nil_channel err_nil_channel (drop_session s (log (open_failed s) c))
  on_opened s given c = let ch = length c.trace in install s ch (log (opened s ch) c)

  unfoldable pub open_channel : ℕ → M Done
  unfolding install cache_dial_failure
  open_channel s c = on_opened s (amqp.channel s c.trace) c

  abbrev on_dialled : Answer → M Done
  on_dialled (refused e) c = fail_with e (wrapped "dial RabbitMQ" e) (log dial_failed c)
  on_dialled nothing c = fail_with err_nil_session err_nil_session (log dial_failed c)
  on_dialled given c = let s = length c.trace in open_channel s (log (dialled s) c)

  -- connectLocked, from the test of the negative cache on
  unfoldable pub dial_locked : M Done
  unfolding open_channel cached_dial_error
  dial_locked = do cached_dial_error; (λ c. on_dialled (amqp.dial c.trace) c)

  abbrev on_reopened : ℕ → Answer → M Done
  on_reopened s (refused e) c = fail_with e (wrapped "reopen channel" e) (log (open_failed s) c)
  on_reopened s nothing c = fail_with err_nil_channel err_nil_channel (log (open_failed s) c)
  on_reopened s given c =
      let ch = length c.trace in
      (
        ok tt,
        record (drop_old_channel c.channel (log (opened s ch) c)) {
          channel = some ch;
          last_dial_fail = none;
          last_dial_err = none;
        },
      )

  abbrev forget_topology : M Done
  forget_topology c = (ok tt, record c { topology_declared = false })

  unfoldable pub reopen_channel_locked : ℕ → M Done
  unfolding cached_dial_error cache_dial_failure
  reopen_channel_locked s = do
    forget_topology
    cached_dial_error
    (λ c. on_reopened s (amqp.channel s c.trace) c)

  abbrev connect_with : Option ℕ → M Done
  connect_with none = dial_locked
  connect_with (some s) = do
    usable ← channel_usable
    if usable then pure tt else reopen_channel_locked s

  unfoldable pub connect_locked : M Done
  unfolding live_session channel_usable dial_locked reopen_channel_locked
  connect_locked = do live ← live_session; connect_with live

  abbrev declared : Declaration → Option GoError → Result Done
  declared d none = ok tt
  declared (exchange name kind) (some e) = err e
  declared (queue name) (some e) = err (wrapped (str_append "failed to declare queue " name) e)
  declared (binding name exchange_name routing_key) (some e) =
      err (wrapped (str_append "failed to bind queue " name) e)

  -- DeclareExchange, DeclareDeadLetterExchange and the two halves of DeclareQueue
  unfoldable pub declare : ℕ → Declaration → M Done
  declare ch d c =
      let answer = amqp.fails c.trace in
      (declared d answer, log (declared_call ch d (is_none answer)) c)

  unfoldable pub declare_all : ℕ → List Declaration → M Done
  unfolding declare
  declare_all ch [] = pure tt
  declare_all ch (d ∷ ds) = do declare ch d; declare_all ch ds

  -- With no channel the code would panic.
  abbrev declare_on : Option ℕ → M Done
  declare_on none = fail (message "invalid memory address or nil pointer dereference")
  declare_on (some ch) = declare_all ch topology

  unfoldable pub declare_topology : M Done
  declare_topology c = declare_on c.channel c

  abbrev mark_declared : M Done
  mark_declared c = (ok tt, record c { topology_declared = true })

  abbrev ensure_topology : Bool → M Done
  ensure_topology true = pure tt
  ensure_topology false = do declare_topology; mark_declared

  -- Connection.Channel
  unfoldable pub channel : M (Option ℕ)
  channel = do
    connect_locked
    (λ c. ensure_topology c.topology_declared c)
    (λ c. (ok c.channel, c))

  abbrev closing : Option GoError → List GoError → List GoError
  closing none errs = errs
  closing (some e) errs = errs ++ e ∷ []

  abbrev pub close_channel_of : Option ℕ → List GoError → Connection → List GoError × Connection
  close_channel_of none errs c = (errs, c)
  close_channel_of (some ch) errs c = (closing (amqp.fails c.trace) errs, log (channel_closed ch) c)

  abbrev pub close_session_of : Option ℕ → List GoError → Connection → List GoError × Connection
  close_session_of none errs c = (errs, c)
  close_session_of (some s) errs c = (closing (amqp.fails c.trace) errs, log (session_closed s) c)

  abbrev pub reset : Connection → Connection
  reset c = record c {
    session = none;
    channel = none;
    topology_declared = false;
    last_dial_fail = none;
    last_dial_err = none;
  }

  -- Connection.Close, with the errors that it joins
  unfoldable pub close : Connection → List GoError × Connection
  close c =
      let (errs, c₁) = close_channel_of c.channel [] (reset c) in close_session_of c.session errs c₁
