-- ===== src/Messaging/Connection/Ready.antt =====
-- The flag that the topology is declared is only set while it is declared on the channel held.
use quantum_entropy_service.Common.{
  if◌then◌else◌, length, ℕ, ◌≡◌, refl, Bool, true, false, List, [], ◌∷◌, Option, none, some, ◌⊎◌,
  inr, All, GoError, pure, preserves_then, subst, sym,
}
use quantum_entropy_service.Messaging.Broker.{
  Call, Trace, Answer, Oracle, refused, nothing, given, asked, opened,
}
use quantum_entropy_service.Messaging.Exchanges.{Declaration, topology, declared_call}
use quantum_entropy_service.Messaging.Connection.{
  drop_old_channel, Connection, log, replay, live_of, usable_of, live_session, channel_usable,
  cached_dial_error, cache_dial_failure, on_opened, open_channel, on_dialled, dial_locked,
  on_reopened, reopen_channel_locked, connect_with, connect_locked,
}

abbrev pub Has : Call → Trace → Type 0
Has call [] = ⊥
Has call (x ∷ trace) = (call ≡ x) ⊎ Has call trace

-- Each declaration of `ds` was made on the channel, and succeeded.
abbrev pub AllDeclared : ℕ → List Declaration → Trace → Type 0
AllDeclared ch ds trace = All (λ d. Has (declared_call ch d true) trace) ds

pub AllDeclared-later :
    (ch : ℕ) (ds : List Declaration) (x : Call) (t : Trace)
    → AllDeclared ch ds t
    → AllDeclared ch ds (x ∷ t)
AllDeclared-later ch [] x t h = tt
AllDeclared-later ch (d ∷ ds) x t h = (inr h.0, AllDeclared-later ch ds x t h.1)

abbrev pub DeclaredOn : Option ℕ → Trace → Type 0
DeclaredOn none t = ⊥
DeclaredOn (some ch) t = AllDeclared ch topology t

DeclaredOn-later : (o : Option ℕ) (x : Call) (t : Trace) → DeclaredOn o t → DeclaredOn o (x ∷ t)
DeclaredOn-later none x t h = elim h [ ]
DeclaredOn-later (some ch) x t h = AllDeclared-later ch topology x t h

abbrev pub ReadyIf : Bool → Option ℕ → Trace → Type 0
ReadyIf false o t = Unit {0}
ReadyIf true o t = DeclaredOn o t

ReadyIf-later :
    (b : Bool) (o : Option ℕ) (x : Call) (t : Trace) → ReadyIf b o t → ReadyIf b o (x ∷ t)
ReadyIf-later false o x t h = tt
ReadyIf-later true o x t h = DeclaredOn-later o x t h

-- The flag is only set while the declarations of the channel held are in the trace.
pub record Ready (c : Connection) : Type 0 where
  pub ready : ReadyIf c.topology_declared c.channel c.trace

pub log-Ready : (x : Call) (c : Connection) → Ready c → Ready (log x c)
log-Ready x c h = record { ready = ReadyIf-later c.topology_declared c.channel x c.trace h.ready }

module _ (amqp : Oracle) where
  cache_dial_failure-Ready :
      (e : GoError) (c : Connection) → Ready c → Ready (cache_dial_failure amqp e c).1
  unfolding cache_dial_failure
  cache_dial_failure-Ready e c h = record { ready = (log-Ready asked c h).ready }

  on_opened-Ready : (s : ℕ) (a : Answer) (c : Connection) → Ready c → Ready (on_opened amqp s a c).1
  unfolding open_channel
  on_opened-Ready s (refused e) c h = cache_dial_failure-Ready e _ (log-Ready _ _ (log-Ready _ c h))
  on_opened-Ready s nothing c h = cache_dial_failure-Ready _ _ (log-Ready _ _ (log-Ready _ c h))
  on_opened-Ready s given c h = record { ready = tt }

  on_dialled-Ready : (a : Answer) (c : Connection) → Ready c → Ready (on_dialled amqp a c).1
  unfolding open_channel
  on_dialled-Ready (refused e) c h = cache_dial_failure-Ready e _ (log-Ready _ c h)
  on_dialled-Ready nothing c h = cache_dial_failure-Ready _ _ (log-Ready _ c h)
  on_dialled-Ready given c h = on_opened-Ready _ _ _ (log-Ready _ c h)

  replay-Ready : (o : Option ℕ) (c : Connection) → Ready c → Ready (replay amqp o c).1
  replay-Ready none c h = h
  replay-Ready (some t) c h = log-Ready asked c h

  dial_locked-Ready : (c : Connection) → Ready c → Ready (dial_locked amqp c).1
  unfolding dial_locked cached_dial_error
  dial_locked-Ready c h =
      preserves_then Ready (cached_dial_error amqp) _ c (replay-Ready c.last_dial_fail c h)
        (λ a s k. on_dialled-Ready (amqp.dial s.trace) s k)

  pub unready : (c : Connection) → c.topology_declared ≡ false → Ready c
  unready c e = record { ready = subst (λ b. ReadyIf b c.channel c.trace) (sym e) tt }

  on_reopened-Undeclared :
      (s : ℕ) (a : Answer) (c : Connection)
      → c.topology_declared ≡ false
      → (on_reopened amqp s a c).1.topology_declared ≡ false
  unfolding cache_dial_failure
  on_reopened-Undeclared s (refused e) c h = h
  on_reopened-Undeclared s nothing c h = h
  on_reopened-Undeclared s given c h = on c.channel
    where
      on :
          (o : Option ℕ)
          → (drop_old_channel amqp o (log (opened s (length c.trace)) c)).topology_declared ≡ false
      on none = h
      on (some x) = h

  replay-Undeclared :
      (o : Option ℕ) (c : Connection)
      → c.topology_declared ≡ false
      → (replay amqp o c).1.topology_declared ≡ false
  replay-Undeclared none c h = h
  replay-Undeclared (some t) c h = h

  reopen_channel_locked-Ready : (s : ℕ) (c : Connection) → Ready (reopen_channel_locked amqp s c).1
  unfolding reopen_channel_locked cached_dial_error
  reopen_channel_locked-Ready s c = unready _ (
      preserves_then (λ c. c.topology_declared ≡ false) (cached_dial_error amqp) _
        (record c { topology_declared = false }) (replay-Undeclared c.last_dial_fail _ refl)
        (λ a c k. on_reopened-Undeclared s (amqp.channel s c.trace) c k))

  live_of-Ready : (o : Option ℕ) (c : Connection) → Ready c → Ready (live_of amqp o c).1
  live_of-Ready none c h = h
  live_of-Ready (some s) c h = log-Ready asked c h

  usable_of-Ready : (o : Option ℕ) (c : Connection) → Ready c → Ready (usable_of amqp o c).1
  usable_of-Ready none c h = h
  usable_of-Ready (some s) c h = log-Ready asked c h

  connect_with-Ready : (o : Option ℕ) (c : Connection) → Ready c → Ready (connect_with amqp o c).1
  unfolding channel_usable
  connect_with-Ready none c h = dial_locked-Ready c h
  connect_with-Ready (some s) c h =
      preserves_then Ready (channel_usable amqp) _ c (usable_of-Ready c.channel c h) after
    where
      after :
          (b : Bool) (c : Connection)
          → Ready c
          → Ready ((if b then pure tt else reopen_channel_locked amqp s) c).1
      after true c k = k
      after false c k = reopen_channel_locked-Ready s c

  pub connect_locked-Ready : (c : Connection) → Ready c → Ready (connect_locked amqp c).1
  unfolding connect_locked live_session
  connect_locked-Ready c h =
      preserves_then Ready (live_session amqp) (connect_with amqp) c (live_of-Ready c.session c h)
        connect_with-Ready
