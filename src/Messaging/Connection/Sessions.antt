-- ===== src/Messaging/Connection/Sessions.antt =====
-- No AMQP session is leaked: of all sessions ever dialled, the one that the connection holds is the
-- only one that has not been closed.
use quantum_entropy_service.Common.{◌∙◌, append-nil, ◌≡◌, refl, List, [], ◌∷◌}
use quantum_entropy_service.Messaging.Broker.{Oracle}
use quantum_entropy_service.Messaging.Connection.Handles.{open_sessions, held}
use quantum_entropy_service.Messaging.Connection.{Connection, new_connection, channel, close}
use quantum_entropy_service.Messaging.Connection.Accounting.{
  HoldsAll, channel-HoldsAll, close-HoldsAll,
}

-- What a caller does with a connection.
pub data Use : Type 0 where
  get_channel close_it : Use

module _ (amqp : Oracle) where
  unfoldable pub use_once : Use → Connection → Connection
  unfolding channel close
  use_once get_channel c = (channel amqp c).1
  use_once close_it c = (close amqp c).1

  unfoldable pub use_all : List Use → Connection → Connection
  unfolding use_once
  use_all [] c = c
  use_all (u ∷ us) c = use_all us (use_once u c)

  use_all-HoldsAll :
      (us : List Use) (c : Connection) → HoldsAll amqp [] c → HoldsAll amqp [] (use_all us c)
  unfolding use_all
  use_all-HoldsAll [] c h = h
  use_all-HoldsAll (get_channel ∷ us) c h =
      use_all-HoldsAll us (channel amqp c).1 (channel-HoldsAll amqp [] c h)
  use_all-HoldsAll (close_it ∷ us) c h =
      use_all-HoldsAll us (close amqp c).1 (close-HoldsAll amqp [] c h)

  pub new_connection-HoldsAll : HoldsAll amqp [] new_connection
  unfolding new_connection
  new_connection-HoldsAll = record { accounted = refl; falling = tt }

  -- After any sequence of calls of `channel` and `close` on a new connection, and whatever the broker
  -- answered, the sessions that were dialled and not closed are the one that the connection holds,
  -- or none if it holds none.
  pub channel-holds_all_sessions :
      (us : List Use) → let c = use_all us new_connection in open_sessions c.trace ≡ held c.session
  channel-holds_all_sessions us =
      let c = use_all us new_connection in
      (use_all-HoldsAll us new_connection new_connection-HoldsAll).accounted
      ∙ append-nil (held c.session)
