-- ===== src/Messaging/Connection/Accounting.antt =====
-- Each part of Channel and Close keeps the account of the sessions that are open: of those it is given,
-- and of those in the hands of others (`rest`).
use quantum_entropy_service.Messaging.Exchanges.{Declaration, exchange, queue, binding, topology}
use quantum_entropy_service.Common.{
  suc, ◌++◌, GoError, preserves_then, pure, ok, ℕ, ◌≡◌, refl, Bool, true, false, if◌then◌else◌,
  List, [], ◌∷◌, length, Option, none, some,
}
use quantum_entropy_service.Messaging.Broker.{
  Answer, Oracle, dialled, dial_failed, opened, open_failed, session_closed, channel_closed,
  exchange_declare, queue_declare, queue_bind, asked, refused, nothing, given,
}
use quantum_entropy_service.Messaging.Connection.Handles.{
  held, Accounts, Accounts-call, Accounts-kept, Accounts-taken, Accounts-dialled, Accounts-closed,
}
use quantum_entropy_service.Messaging.Connection.{
  drop_old_session, drop_old_channel, install, reset, log, close_channel_of, close_session_of,
  replay, live_of, usable_of, declare_on, mark_declared, ensure_topology, Connection, live_session,
  channel_usable, cached_dial_error, cache_dial_failure, on_opened, open_channel, on_dialled,
  dial_locked, on_reopened, reopen_channel_locked, connect_with, connect_locked, declare,
  declare_all, declare_topology, channel, close,
}

module _ (amqp : Oracle) (rest : List ℕ) where
  -- The connection holds the one session that is open, those of `rest` aside.
  abbrev pub HoldsAll : Connection → Type 0
  HoldsAll c = Accounts rest c.session c.trace

  drop_old_session-Accounts :
      (o : Option ℕ) (s : ℕ) (c : Connection)
      → Accounts (held o ++ rest) (some s) c.trace
      → Accounts rest (some s) (drop_old_session amqp o c).trace
  drop_old_session-Accounts none s c h = h
  drop_old_session-Accounts (some p) s c h = Accounts-closed (some s) [] rest p h

  drop_old_channel-HoldsAll :
      (o : Option ℕ) (c : Connection) → HoldsAll c → HoldsAll (drop_old_channel amqp o c)
  drop_old_channel-HoldsAll none c h = h
  drop_old_channel-HoldsAll (some ch) c h = Accounts-call (channel_closed ch) (λ xs. refl) h

  -- A session that gave no channel is closed at once.
  failed-Accounts :
      (c : Connection)
      → HoldsAll c
      → let s = length c.trace in
        Accounts rest c.session (asked ∷ session_closed s ∷ open_failed s ∷ dialled s ∷ c.trace)
  failed-Accounts c h =
      let s = length c.trace in
      let two : Accounts (s ∷ held c.session ++ rest) none (open_failed s ∷ dialled s ∷ c.trace) =
        Accounts-call (open_failed s) (λ xs. refl)
          (Accounts-taken (some s) (Accounts-dialled c.session h)) in
      Accounts-call asked (λ xs. refl)
        (Accounts-kept c.session (Accounts-closed none [] (held c.session ++ rest) s two))

  on_opened-HoldsAll :
      (a : Answer) (c : Connection)
      → HoldsAll c
      → let s = length c.trace in
        HoldsAll (on_opened amqp s a (record c { trace = dialled s ∷ c.trace })).1
  unfolding install cache_dial_failure
  on_opened-HoldsAll (refused e) c h = failed-Accounts c h
  on_opened-HoldsAll nothing c h = failed-Accounts c h
  on_opened-HoldsAll given c h =
      let s = length c.trace in
      let ch = suc s in
      drop_old_session-Accounts c.session s (record c { trace = opened s ch ∷ dialled s ∷ c.trace })
        (Accounts-call (opened s ch) (λ xs. refl) (Accounts-dialled c.session h))

  on_dialled-HoldsAll :
      (a : Answer) (c : Connection) → HoldsAll c → HoldsAll (on_dialled amqp a c).1
  unfolding open_channel cache_dial_failure
  on_dialled-HoldsAll (refused e) c h =
      Accounts-call asked (λ xs. refl) (Accounts-call dial_failed (λ xs. refl) h)
  on_dialled-HoldsAll nothing c h =
      Accounts-call asked (λ xs. refl) (Accounts-call dial_failed (λ xs. refl) h)
  on_dialled-HoldsAll given c h =
      let s = length c.trace in on_opened-HoldsAll (amqp.channel s (dialled s ∷ c.trace)) c h

  on_reopened-HoldsAll :
      (s : ℕ) (a : Answer) (c : Connection) → HoldsAll c → HoldsAll (on_reopened amqp s a c).1
  unfolding cache_dial_failure
  on_reopened-HoldsAll s (refused e) c h =
      Accounts-call asked (λ xs. refl) (Accounts-call (open_failed s) (λ xs. refl) h)
  on_reopened-HoldsAll s nothing c h =
      Accounts-call asked (λ xs. refl) (Accounts-call (open_failed s) (λ xs. refl) h)
  on_reopened-HoldsAll s given c h =
      let ch = length c.trace in
      drop_old_channel-HoldsAll c.channel (record c { trace = opened s ch ∷ c.trace })
        (Accounts-call (opened s ch) (λ xs. refl) h)

  replay-HoldsAll : (o : Option ℕ) (c : Connection) → HoldsAll c → HoldsAll (replay amqp o c).1
  replay-HoldsAll none c h = h
  replay-HoldsAll (some t) c h = Accounts-call asked (λ xs. refl) h

  live_of-HoldsAll : (o : Option ℕ) (c : Connection) → HoldsAll c → HoldsAll (live_of amqp o c).1
  live_of-HoldsAll none c h = h
  live_of-HoldsAll (some t) c h = Accounts-call asked (λ xs. refl) h

  usable_of-HoldsAll :
      (o : Option ℕ) (c : Connection) → HoldsAll c → HoldsAll (usable_of amqp o c).1
  usable_of-HoldsAll none c h = h
  usable_of-HoldsAll (some t) c h = Accounts-call asked (λ xs. refl) h

  dial_locked-HoldsAll : (c : Connection) → HoldsAll c → HoldsAll (dial_locked amqp c).1
  unfolding dial_locked cached_dial_error
  dial_locked-HoldsAll c h =
      preserves_then HoldsAll (cached_dial_error amqp)
        (λ _ c. on_dialled amqp (amqp.dial c.trace) c) c (replay-HoldsAll c.last_dial_fail c h)
        (λ a s k. on_dialled-HoldsAll (amqp.dial s.trace) s k)

  reopen_channel_locked-HoldsAll :
      (s : ℕ) (c : Connection) → HoldsAll c → HoldsAll (reopen_channel_locked amqp s c).1
  unfolding reopen_channel_locked cached_dial_error
  reopen_channel_locked-HoldsAll s c h =
      preserves_then HoldsAll (cached_dial_error amqp)
        (λ _ c. on_reopened amqp s (amqp.channel s c.trace) c)
        (record c { topology_declared = false })
        (replay-HoldsAll c.last_dial_fail (record c { topology_declared = false }) h)
        (λ a c k. on_reopened-HoldsAll s (amqp.channel s c.trace) c k)

  live_session-HoldsAll : (c : Connection) → HoldsAll c → HoldsAll (live_session amqp c).1
  unfolding live_session
  live_session-HoldsAll c h = live_of-HoldsAll c.session c h

  channel_usable-HoldsAll : (c : Connection) → HoldsAll c → HoldsAll (channel_usable amqp c).1
  unfolding channel_usable
  channel_usable-HoldsAll c h = usable_of-HoldsAll c.channel c h

  connect_with-HoldsAll :
      (o : Option ℕ) (c : Connection) → HoldsAll c → HoldsAll (connect_with amqp o c).1
  connect_with-HoldsAll none c h = dial_locked-HoldsAll c h
  connect_with-HoldsAll (some s) c h =
      preserves_then HoldsAll (channel_usable amqp) _ c (channel_usable-HoldsAll c h) after
    where
      after :
          (b : Bool) (c : Connection)
          → HoldsAll c
          → HoldsAll ((if b then pure tt else reopen_channel_locked amqp s) c).1
      after true c k = k
      after false c k = reopen_channel_locked-HoldsAll s c k

  connect_locked-HoldsAll : (c : Connection) → HoldsAll c → HoldsAll (connect_locked amqp c).1
  unfolding connect_locked
  connect_locked-HoldsAll c h =
      preserves_then HoldsAll (live_session amqp) (connect_with amqp) c (live_session-HoldsAll c h)
        connect_with-HoldsAll

  declare-HoldsAll :
      (ch : ℕ) (d : Declaration) (c : Connection) → HoldsAll c → HoldsAll (declare amqp ch d c).1
  unfolding declare
  declare-HoldsAll ch (exchange n k) c h = Accounts-call (exchange_declare ch n k _) (λ xs. refl) h
  declare-HoldsAll ch (queue n) c h = Accounts-call (queue_declare ch n _) (λ xs. refl) h
  declare-HoldsAll ch (binding n x r) c h = Accounts-call (queue_bind ch n r x _) (λ xs. refl) h

  declare_all-HoldsAll :
      (ch : ℕ) (ds : List Declaration) (c : Connection)
      → HoldsAll c
      → HoldsAll (declare_all amqp ch ds c).1
  unfolding declare_all
  declare_all-HoldsAll ch [] c h = h
  declare_all-HoldsAll ch (d ∷ ds) c h =
      preserves_then HoldsAll (declare amqp ch d) (λ _. declare_all amqp ch ds) c
        (declare-HoldsAll ch d c h) (λ a. declare_all-HoldsAll ch ds)

  declare_topology-HoldsAll : (c : Connection) → HoldsAll c → HoldsAll (declare_topology amqp c).1
  unfolding declare_topology
  declare_topology-HoldsAll c h = on c.channel
    where
      on : (o : Option ℕ) → HoldsAll (declare_on amqp o c).1
      on none = h
      on (some ch) = declare_all-HoldsAll ch topology c h

  ensure_topology-HoldsAll :
      (b : Bool) (c : Connection) → HoldsAll c → HoldsAll (ensure_topology amqp b c).1
  ensure_topology-HoldsAll true c h = h
  ensure_topology-HoldsAll false c h =
      preserves_then HoldsAll (declare_topology amqp) (λ _. mark_declared amqp) c
        (declare_topology-HoldsAll c h) (λ a s k. k)

  pub channel-HoldsAll : (c : Connection) → HoldsAll c → HoldsAll (channel amqp c).1
  unfolding channel
  channel-HoldsAll c h =
      preserves_then HoldsAll (connect_locked amqp) _ c (connect_locked-HoldsAll c h) (λ a c k.
        preserves_then HoldsAll (λ c. ensure_topology amqp c.topology_declared c)
          (λ _ c. (ok c.channel, c)) c (ensure_topology-HoldsAll c.topology_declared c k)
          (λ a s l. l))

  close_session_of-HoldsAll :
      (o : Option ℕ) (errs : List GoError) (c : Connection)
      → c.session ≡ none
      → Accounts (held o ++ rest) none c.trace
      → HoldsAll (close_session_of amqp o errs c).1
  close_session_of-HoldsAll none errs c e h = rw e h
  close_session_of-HoldsAll (some s) errs c e h = rw e (Accounts-closed none [] rest s h)

  close_with-HoldsAll :
      (o ch : Option ℕ) (c : Connection)
      → c.session ≡ none
      → Accounts (held o ++ rest) none c.trace
      → let (errs, c₁) = close_channel_of amqp ch [] c in
        HoldsAll (close_session_of amqp o errs c₁).1
  close_with-HoldsAll o none c e h = close_session_of-HoldsAll o [] c e h
  close_with-HoldsAll o (some ch) c e h =
      close_session_of-HoldsAll o _ (log (channel_closed ch) c) e
        (Accounts-call (channel_closed ch) (λ xs. refl) h)

  pub close-HoldsAll : (c : Connection) → HoldsAll c → HoldsAll (close amqp c).1
  unfolding close
  close-HoldsAll c h =
      close_with-HoldsAll c.session c.channel (reset amqp c) refl (Accounts-taken c.session h)
