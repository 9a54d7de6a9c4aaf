-- ===== src/Messaging.antt =====
-- The package internal/messaging: the events and the interface of publishers (Events), the broker's
-- library (Broker), the exchanges and queues (Exchanges), the life of the connection (Connection),
-- the publisher (Publisher) and the consumer (Consumer).
pub mod Events
pub mod Broker
pub mod Exchanges
pub mod Connection
pub mod Publisher
pub mod Consumer
