-- ===== src/Messaging/Connection/Shared.antt =====
-- One connection used by many goroutines. `mu` makes Channel, and the part of Close that takes the
-- fields, happen at once; the close handshakes of a Close come after, at any time, among the calls of
-- the others. A handshake that falls in the middle of a Channel is put before or after it.
use quantum_entropy_service.Common.{
  ◌≡◌, ◌∙◌, refl, ap, subst, sym, ℕ, List, [], ◌∷◌, ◌++◌, append_assoc, Option, none, some,
}
use quantum_entropy_service.Messaging.Broker.{Oracle, channel_closed, session_closed}
use quantum_entropy_service.Messaging.Connection.{
  Connection, new_connection, log, channel, reset, close, close_channel_of, close_session_of,
}
use quantum_entropy_service.Messaging.Connection.Handles.{
  held, Accounts, Accounts-call, Accounts-taken, Accounts-closed,
}
use quantum_entropy_service.Messaging.Connection.Accounting.{HoldsAll, channel-HoldsAll}
use quantum_entropy_service.Messaging.Connection.Sessions.{
  Use, get_channel, close_it, use_all, new_connection-HoldsAll,
}

-- What a running Close has taken and not yet closed.
pub record Stolen : Type 0 where
  pub session : Option ℕ
  pub channel : Option ℕ

pub record Shared : Type 0 where
  pub connection : Connection
  pub closers : List Stolen

abbrev pub pending : List Stolen → List ℕ
pending [] = []
pending (k ∷ ks) = held k.session ++ pending ks

module _ (amqp : Oracle) where
  pub data Step (g : Shared) : Shared → Type 0 where
    gets : Step g (record g { connection = (channel amqp g.connection).1 })
    -- Close, up to c.mu.Unlock()
    steals : Step g (record {
      connection = reset amqp g.connection;
      closers =
          record { session = g.connection.session; channel = g.connection.channel } ∷ g.closers;
    })
    -- ch.Close() and session.Close() of some Close
    closes_channel :
        (xs ys : List Stolen) (o : Option ℕ) (ch : ℕ)
        → g.closers ≡ xs ++ record { session = o; channel = some ch } ∷ ys
        → Step g (record {
          connection = log (channel_closed ch) g.connection;
          closers = xs ++ record { session = o; channel = none } ∷ ys;
        })
    closes_session :
        (xs ys : List Stolen) (s : ℕ)
        → g.closers ≡ xs ++ record { session = some s; channel = none } ∷ ys
        → Step g (record { connection = log (session_closed s) g.connection; closers = xs ++ ys })

  pub data Run : Shared → Type 0 where
    start : Run (record { connection = new_connection; closers = [] })
    then_ : {g h : Shared} → Run g → Step g h → Run h

  abbrev AllHeld : Shared → Type 0
  AllHeld g = HoldsAll amqp (pending g.closers) g.connection

  pending-append : (xs ys : List Stolen) → pending (xs ++ ys) ≡ pending xs ++ pending ys
  pending-append [] ys = refl
  pending-append (k ∷ xs) ys =
      ap (◌++◌ (held k.session)) (pending-append xs ys)
      ∙ sym (append_assoc (held k.session) (pending xs) (pending ys))

  Step-AllHeld : {g h : Shared} → Step g h → AllHeld g → AllHeld h
  Step-AllHeld {g} gets h = channel-HoldsAll amqp (pending g.closers) g.connection h
  Step-AllHeld {g} steals h = Accounts-taken g.connection.session h
  Step-AllHeld {g} (closes_channel xs ys o ch e) h =
      let k : Stolen = record { session = o; channel = none } in
      let same : pending g.closers ≡ pending (xs ++ k ∷ ys) =
        ap pending e
        ∙ pending-append xs (record { session = o; channel = some ch } ∷ ys)
        ∙ sym (pending-append xs (k ∷ ys)) in
      Accounts-call (channel_closed ch) (λ l. refl)
        (subst (λ l. Accounts l g.connection.session g.connection.trace) same h)
  Step-AllHeld {g} (closes_session xs ys s e) h =
      let split : pending g.closers ≡ pending xs ++ s ∷ pending ys =
        ap pending e ∙ pending-append xs (record { session = some s; channel = none } ∷ ys) in
      subst (λ l. Accounts l g.connection.session (session_closed s ∷ g.connection.trace))
        (sym (pending-append xs ys))
        (Accounts-closed g.connection.session (pending xs) (pending ys) s
          (subst (λ l. Accounts l g.connection.session g.connection.trace) split h))

  -- However many goroutines call Channel and Close on a new connection, in any interleaving and
  -- whatever the broker answers: the sessions that were dialled and not closed are the one that the
  -- connection holds and those that running calls of Close have taken, each of them once.
  pub Run-Accounts :
      {g : Shared} → Run g → Accounts (pending g.closers) g.connection.session g.connection.trace
  Run-Accounts start = new_connection-HoldsAll amqp
  Run-Accounts (then_ r s) = Step-AllHeld s (Run-Accounts r)

  Continued : Connection → Type 0
  Continued c = (ks : List Stolen) × Run (record { connection = c; closers = ks })

  close_after :
      (o ch : Option ℕ) (c : Connection) (ks : List Stolen)
      → Run (record { connection = c; closers = record { session = o; channel = ch } ∷ ks })
      → let (errs, c₁) = close_channel_of amqp ch [] c in
        Continued (close_session_of amqp o errs c₁).1
  unfolding Continued
  close_after none none c ks r = (_, r)
  close_after none (some ch) c ks r = (_, then_ r (closes_channel [] ks none ch refl))
  close_after (some s) none c ks r = (_, then_ r (closes_session [] ks s refl))
  close_after (some s) (some ch) c ks r =
      (_, then_ (then_ r (closes_channel [] ks (some s) ch refl)) (closes_session [] ks s refl))

  use_all-Continued : (us : List Use) (c : Connection) → Continued c → Continued (use_all amqp us c)
  unfolding Continued use_all close
  use_all-Continued [] c r = r
  use_all-Continued (get_channel ∷ us) c (ks, r) =
      use_all-Continued us (channel amqp c).1 (ks, then_ r gets)
  use_all-Continued (close_it ∷ us) c (ks, r) =
      use_all-Continued us (close amqp c).1
        (close_after c.session c.channel (reset amqp c) ks (then_ r steals))

  -- Calls of Channel and Close one after another are a run.
  pub use_all-Run :
      (us : List Use)
      → (ks : List Stolen) × Run
          (record { connection = use_all amqp us new_connection; closers = ks })
  unfolding Continued
  use_all-Run us = use_all-Continued us new_connection ([], start)
