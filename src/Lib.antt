-- ===== src/Lib.antt =====
-- Verification of the quantum entropy service: two programs, one that serves quantum random bytes
-- (cmd/quantum-api) and one that keeps a pool of them, makes RSA keys from the pool and audits it
-- (cmd/keymanager), joined by HTTP and by events on RabbitMQ.
--
-- How the parts interact. The collector (internal/collector) fetches bytes from the quantum API
-- (internal/quantum) and saves them as unused records in the pool. The key service
-- (internal/keymanager) consumes records for each key and each export, and when fewer than 200 are
-- left it triggers the collector and publishes pool.low. The audits (internal/audit) sample the pool
-- without consuming it. All publish events over one lazily dialled connection (internal/messaging).
--
-- Which file models what:
--   Common       helpers: tests and integers, lists over native numbers, Go's errors and fallible
--                calls (`Action`), and rules on what a call leaves alone (`Keeps`)
--   Keymanager   Model: model.go. Stores: interfaces.go with its laws. Repository: repository.go over
--                a GORM that is a parameter (`Gorm`). Crypto: the cryptography, a parameter.
--                Service, Service/Keys: service.go; each method is a function on a `World`.
--                Reader: xorReader of service.go. Handler: handler.go, from the parsed request to
--                status and body
--   Messaging    Events: events.go. Exchanges: the lists of declareTopology in consumer.go.
--                Broker: the AMQP library as an oracle and a trace of calls. Connection:
--                connection.go, one function per method; Connection/Shared: many goroutines on
--                one. Publisher: publisher.go. Consumer: consumer.go
--   Collector    Scheduler: scheduler.go. Scheduler/Workers: the goroutines of runRefillBatch as a step
--                relation, in any interleaving. Scheduler/Loop: run with its channels, as a step relation
--   Audit        Floats: float64 with the packages math and fmt, a parameter. Validators: validators/,
--                with Gamma (igamc.go), Nist (nist.go) and Structure (structure.go). Suites, FanIn:
--                suites.go. Samples and Runs: service.go, and RunSuites of suites.go. Endpoint: handler.go
--   Quantum      Mixing: mixing.go and MixWithSystemEntropy. Service: service.go, client_lfd.go and
--                handler.go. Permits: the semaphore of client_lfd.go as a step relation
--   Ui           internal/ui/handler.go: Keys, Audits and Status, each handler from what is parsed of a
--                request to a status and a fragment
--   Server       Recovery: internal/middleware/recovery.go. Boot: cmd/keymanager/main.go. Shutdown:
--                cmd/quantum-api/main.go, its goroutines as a step relation. Routes: every
--                RegisterRoutes and what the commands register; Routes/Api: the REST API behind them.
--                Pipeline: the collector with the quantum API as its network
--                System: cmd/keymanager as a sequence of calls to the API and to the dashboard, rounds of
--                the collector and audits, each call whole before the next
--   Tests        concrete worlds on which each theorem is applied
--
-- Bounds and fuel. The loop of collectEntropy runs on fuel: one more than the records missing and the
-- failures allowed, since each round that does not end it brings a record or a failure. The loop of
-- saveRecords runs on the length of the data, that of generateKeystream on the length wanted, as each
-- round takes or adds at least a byte. Counts and IDs are natural numbers without a bound. The count
-- that a client asks the quantum API for and the size of a sample are integers, negative ones
-- included; a key size is a natural number, so negative ones are left out, which the service refuses
-- as it does every size but 2048 and 4096.
--
-- The loops of igamc.go have the source's 100000 rounds.
--
-- Not modelled. Libraries (GORM, AMQP, crypto, HTTP, JSON, base64, math) are parameters. Of
-- floating-point arithmetic only what comparisons do with NaN and that they are transitive is
-- assumed, so nothing is said of the numerical value of a statistic. Time stamps and log lines are
-- left out, and the text of the dashboard's templates, and the field Results of AuditCompleteEvent.
-- net/http's servers and gin are not modelled; what is relied on is that a router gives a route of
-- the table that fits, if there is one, that a query is read as it is written, and that
-- ListenAndServe may fail at any time and ends after Shutdown. RSA generation is a parameter, and
-- what it reads is not followed. What RabbitMQ does with a message that is acknowledged or requeued,
-- and the errors of Ack and Nack, which the consumer ignores, are left out. What a batch of
-- fetches delivers to the loop of collectEntropy is an argument of it; where a bound depends on it,
-- a hypothesis says that some interleaving of the step relation delivers it.
pub mod Common
pub mod Keymanager
pub mod Messaging
pub mod Collector
pub mod Audit
pub mod Quantum
pub mod Ui
pub mod Server
mod Tests
