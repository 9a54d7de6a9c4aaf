-- ===== src/Tests/Broker.antt =====
-- The broker connection against a broker that is up, and one that is down.
use quantum_entropy_service.Common.{
  ℕ, ◌≡◌, refl, false, String, List, [], ◌∷◌, none, some, GoError, message, Result, ok,
}
use quantum_entropy_service.Messaging.Broker.{Oracle, given, refused}
use quantum_entropy_service.Messaging.Exchanges.{topology}
use quantum_entropy_service.Messaging.Events.{Event, pool_ok}
use quantum_entropy_service.Messaging.Connection.{
  new_connection, channel, connect_locked, declare_topology, declare_all,
}
use quantum_entropy_service.Messaging.Connection.Sessions.{Use, get_channel, close_it, use_all}
use quantum_entropy_service.Messaging.Connection.Handles.{open_sessions, Accounts}
use quantum_entropy_service.Messaging.Connection.Shared.{
  Shared, Run, start, then_, gets, steals, closes_channel, pending, Run-Accounts,
}
use quantum_entropy_service.Messaging.Connection.Ready.{AllDeclared}
use quantum_entropy_service.Messaging.Connection.Topology.{channel-AllDeclared}
use quantum_entropy_service.Messaging.Consumer.{consume_with_prefetch}
use quantum_entropy_service.Messaging.Consumer.Subscribed.{
  SubscribedOn, start_consumer, consume-SubscribedOn,
}
use quantum_entropy_service.Messaging.Publisher.{publish, SentOn, publish-SentOn}

abbrev pub up : Oracle
up = record {
  dial = λ t. given;
  channel = λ s t. given;
  is_session_closed = λ s t. false;
  is_channel_closed = λ ch t. false;
  now = λ t. 0;
  fails = λ t. none;
}

abbrev down_error : GoError
down_error = message "connection refused"

abbrev pub down : Oracle
down = record up { dial = λ t. refused down_error }

abbrev uses : List Use
uses = get_channel ∷ close_it ∷ get_channel ∷ []

-- One goroutine closes the connection, and another dials before the handshakes of the first.
abbrev raced : (g : Shared) × Run up g
unfolding channel new_connection connect_locked declare_topology declare_all
raced =
    (_, then_ (then_ (then_ (then_ start gets) steals) gets) (closes_channel [] [] (some 0) 1 refl))

Run-Accounts_example :
    let g = raced.0 in Accounts (pending g.closers) g.connection.session g.connection.trace
Run-Accounts_example = Run-Accounts up raced.1

raced_holds_two : open_sessions raced.0.connection.trace ≡ 26 ∷ 0 ∷ []
unfolding raced
raced_holds_two = refl

channel-AllDeclared_example :
    (ch : ℕ) × (some 1 ≡ some ch)
    × AllDeclared ch topology (channel up (use_all up (get_channel ∷ []) new_connection)).1.trace
unfolding channel use_all new_connection connect_locked declare_topology declare_all
channel-AllDeclared_example = channel-AllDeclared up (get_channel ∷ []) (some 1) refl

abbrev pub marshal : Event → Result String
marshal event = ok "{}"

publish-SentOn_example :
    let (r, c) =
      publish up marshal "entropy.pool" "entropy.pool.ok"
        (pool_ok 1000 1000)
        (use_all up uses new_connection) in
    SentOn up marshal "entropy.pool" "entropy.pool.ok" c.trace
unfolding publish channel use_all new_connection connect_locked declare_topology declare_all
publish-SentOn_example =
    publish-SentOn up marshal uses "entropy.pool" "entropy.pool.ok" (pool_ok 1000 1000) refl

consume-SubscribedOn_example :
    SubscribedOn up "audit.queue"
      (start_consumer up "audit.queue" (some 10) (use_all up uses new_connection)).1.trace
unfolding consume_with_prefetch channel use_all new_connection connect_locked declare_topology
    declare_all
consume-SubscribedOn_example = consume-SubscribedOn up uses "audit.queue" (some 10) refl
