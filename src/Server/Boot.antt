-- ===== src/Server/Boot.antt =====
-- main, getEnv and mustGetEnv of cmd/keymanager/main.go, up to the call of `r.Run`.
use quantum_entropy_service.Common.{
  ℕ, ◌<◌, ◌≡◌, refl, subst, leb, Bool, true, false, String, str_eq, [], ◌∷◌, some, if◌then◌else◌,
  ◌≢◌, Done, Result, ok, err, arith,
}
use quantum_entropy_service.Messaging.Broker.{Oracle}
use quantum_entropy_service.Messaging.Events.{Event}
use quantum_entropy_service.Messaging.Connection.{Connection, new_connection, channel}
use quantum_entropy_service.Messaging.Publisher.{publisher}
use quantum_entropy_service.Keymanager.Model.{Bytes}
use quantum_entropy_service.Keymanager.Stores.{EntropyStore, KeyStore}
use quantum_entropy_service.Keymanager.Crypto.{Crypto}
use quantum_entropy_service.Keymanager.Service.{Service, new_service, check_pool_status}
use quantum_entropy_service.Keymanager.Service as Keys
use quantum_entropy_service.Collector.Scheduler.{World, Scheduler, new_scheduler, trigger_refill}
use quantum_entropy_service.Collector.Scheduler.Loop.{Loop, started}
use quantum_entropy_service.Audit.Runs as Audit

-- What the process finds: its environment ("" for a variable that is not set), what opening the
-- database and NewRepository come to, the bytes of a string, and the network. NewRepository gives the
-- two stores and the tables.
pub record Machine (D N : Type 0) : Type 0 where
  pub getenv : String → String
  pub open_db : Result Done
  pub new_repository : Result (D × EntropyStore D × KeyStore D)
  pub bytes_of : String → Bytes
  pub net : N

-- What main has put together when it calls `r.Run`.
pub record App (D N : Type 0) : Type 0 where
  pub port : String
  pub service : Service D Connection Bool
  pub scheduler : Scheduler D Connection
  pub collector : Loop (World D Connection N)
  pub audits : Audit.Service D Connection
  -- whether GET /debug/panic is registered
  pub panic_route : Bool

pub data Boot (D N : Type 0) : Type 0 where
  exits : (status : ℕ) → Boot D N
  serves : App D N → Boot D N

module _ {D N : Type 0} (m : Machine D N) (amqp : Oracle) (marshal : Event → Result String) where
  unfoldable pub get_env : (key fallback : String) → String
  get_env key fallback = let v = m.getenv key in if str_eq v "" then fallback else v

  -- With NewService's result: the callback, the collector, the audits and the routes.
  abbrev assembled : EntropyStore D → D → Connection → Result (Service D Connection Bool) → Boot D N
  assembled store tables connection (err e) = exits 1
  assembled store tables connection (ok svc) =
      let pub_ = some (publisher amqp marshal) in
      serves (record {
        port = get_env "PORT" "8082";
        service = record svc { on_pool_low = some trigger_refill };
        scheduler = new_scheduler store (get_env "API_BASE_URL" "http://quantum-api:8081") pub_;
        collector = started (record { db = tables; broker = connection; net = m.net });
        audits = record { store = store; publisher = pub_ };
        panic_route = str_eq (get_env "PANIC_DEBUG" "") "true";
      })

  -- A broker that is not reachable is only logged.
  abbrev on_repository : String → Result (D × EntropyStore D × KeyStore D) → Boot D N
  on_repository secret (err e) = exits 1
  on_repository secret (ok (tables, store, keys)) =
      let (reached, connection) = channel amqp new_connection in
      assembled store tables connection
        (new_service store keys (m.bytes_of secret) (some (publisher amqp marshal)))

  abbrev on_db : String → Result Done → Boot D N
  on_db secret (err e) = exits 1
  on_db secret (ok _) = on_repository secret m.new_repository

  -- With `mustGetEnv` of the secret.
  unfoldable pub boot : Boot D N
  unfolding new_connection channel new_service get_env new_scheduler
  boot =
      let secret = m.getenv "MASTER_KEY_SECRET" in
      if str_eq secret "" then exits 1 else on_db secret m.open_db

  -- The server that is reached.
  abbrev pub Serves : (App D N → Type 0) → Boot D N → Type 0
  Serves P (exits status) = ⊥
  Serves P (serves app) = P app

  -- Where the parts meet: what a service does when the pool is low sets the signal of the collector's
  -- loop, and this loop runs.
  abbrev pub Wired : App D N → Type 0
  Wired app =
      (app.service.on_pool_low ≡ some trigger_refill)
      × (app.collector.running ≡ true)
      × (app.collector.full ≡ false)
      × (app.service.publisher ≡ app.scheduler.publisher)
      × (app.audits.publisher ≡ app.scheduler.publisher)

  assembled-Wired :
      (store : EntropyStore D) (keys : KeyStore D) (tables : D) (connection : Connection)
      (secret : Bytes)
      → secret ≢ []
      → Serves Wired (
          assembled store tables connection
            (new_service store keys secret (some (publisher amqp marshal))))
  unfolding new_service new_scheduler started
  assembled-Wired store keys tables connection [] h = h refl
  assembled-Wired store keys tables connection (b ∷ secret) h = (refl, refl, refl, refl, refl)

  -- With a secret in the environment that has a byte, a database that opens and a repository that is
  -- made, main reaches the server, whatever the broker does; there the key service's callback sets
  -- the collector's signal, the collector runs, and the three parts share one publisher.
  pub boot-Wired :
      (tables : D) (store : EntropyStore D) (keys : KeyStore D)
      → str_eq (m.getenv "MASTER_KEY_SECRET") "" ≡ false
      → m.bytes_of (m.getenv "MASTER_KEY_SECRET") ≢ []
      → m.open_db ≡ ok tt
      → m.new_repository ≡ ok (tables, store, keys)
      → Serves Wired boot
  unfolding boot
  boot-Wired tables store keys given bytes opened made =
      rw (given, opened, made)
        (assembled-Wired store keys tables (channel amqp new_connection).1
          (m.bytes_of (m.getenv "MASTER_KEY_SECRET")) bytes)

  -- If the server is reached, then P.
  abbrev Once : (App D N → Type 0) → Boot D N → Type 0
  Once P (exits status) = Unit {0}
  Once P (serves app) = P app

  assembled-Once :
      (store : EntropyStore D) (keys : KeyStore D) (tables : D) (connection : Connection)
      (secret : Bytes)
      → Once Wired (
          assembled store tables connection
            (new_service store keys secret (some (publisher amqp marshal))))
  unfolding new_service new_scheduler started
  assembled-Once store keys tables connection [] = tt
  assembled-Once store keys tables connection (b ∷ secret) = (refl, refl, refl, refl, refl)

  on_repository-Once :
      (secret : String) (r : Result (D × EntropyStore D × KeyStore D))
      → Once Wired (on_repository secret r)
  on_repository-Once secret (err e) = tt
  on_repository-Once secret (ok (tables, store, keys)) =
      assembled-Once store keys tables (channel amqp new_connection).1 (m.bytes_of secret)

  on_db-Once : (secret : String) (r : Result Done) → Once Wired (on_db secret r)
  on_db-Once secret (err e) = tt
  on_db-Once secret (ok _) = on_repository-Once secret m.new_repository

  guarded-Once : (t : Bool) (b : Boot D N) → Once Wired b → Once Wired (if t then exits 1 else b)
  guarded-Once true b h = tt
  guarded-Once false b h = h

  boot-Once : Once Wired boot
  unfolding boot
  boot-Once =
      let secret = m.getenv "MASTER_KEY_SECRET" in
      guarded-Once (str_eq secret "") (on_db secret m.open_db) (on_db-Once secret m.open_db)

  -- Where main has reached the server, and the key service counts fewer than 200 unused records, the
  -- check of the pool leaves a signal for the collector, whose loop runs.
  pub boot-signals :
      (c : Crypto) (app : App D N) (count : ℕ) (db : D) (w : Keys.World D Connection c.Random Bool)
      → boot ≡ serves app
      → app.service.store.count_all_unused_entropy w.db ≡ (ok count, db)
      → count < 200
      → ((check_pool_status c app.service w).1.collector ≡ true) × (app.collector.running ≡ true)
  unfolding check_pool_status trigger_refill
  boot-signals c app count db w booted counted low =
      let (set, runs, _, _, _) = subst (λ b. Once Wired b) booted boot-Once in
      let below : leb 200 count ≡ false = ground (arith, low) in
      (rw (counted, below, set) refl, runs)
