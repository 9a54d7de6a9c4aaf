-- ===== src/Server/System.antt =====
-- cmd/keymanager as it runs: requests to the REST API and to the dashboard, rounds of the collector and
-- audits, one whole call after another, over the same tables, publisher and signal, wired as main
-- wires them.
pub mod Kept
pub mod Exports
pub mod Entropy
use quantum_entropy_service.Common.{ℕ, ℤ, ◌≡◌, Bool, true, false, List, String, Result}
use quantum_entropy_service.Keymanager.Model.{Bytes}
use quantum_entropy_service.Keymanager.Crypto.{Crypto}
use quantum_entropy_service.Keymanager.Service.{Service, World}
use quantum_entropy_service.Keymanager.Handler.{GenerateRequest}
use quantum_entropy_service.Collector.Scheduler.{Web, Scheduler, new_scheduler, collect_entropy}
use quantum_entropy_service.Audit.Floats.{Floats}
use quantum_entropy_service.Audit.Samples.{Sources}
use quantum_entropy_service.Audit.Suites.Metrics.{Deliver}
use quantum_entropy_service.Audit.Runs.{run_full_audit, run_suites}
use quantum_entropy_service.Audit.Runs as Audit
use quantum_entropy_service.Ui.Keys.{delete_all, delete_one, export_key}
use quantum_entropy_service.Ui.Keys as Pages
use quantum_entropy_service.Server.Routes.{Find, Request}
use quantum_entropy_service.Server.Routes.Api.{serve}

-- What the handlers of the key service work on, the network of the collector, and the source of
-- randomness of the audits.
pub record System (D B R N A : Type 0) : Type 0 where
  pub keys : World D B R Bool
  pub net : N
  pub chance : A

-- A request to the dashboard that is about keys.
pub data Visit : Type 0 where
  status lists deletes_all : Visit
  generates : (alias : String) (key_size : ℕ) → Visit
  deletes exports : Result ℕ → Visit

-- The libraries that the parts are given.
pub record Libraries (N A : Type 0) : Type 0 where
  pub find : Find
  pub parse_uint : String → Result ℕ
  pub web : Web N
  pub deliver : ℕ → N → List (Result Bytes) × N
  pub sources : Sources A

module _ {D B N A : Type 0} (fl : Floats) (c : Crypto) (lib : Libraries N A)
    (svc : Service D B Bool) (api_base_url : String) (panic_route : Bool) where
  abbrev pub scheduler : Scheduler D B
  unfolding new_scheduler
  scheduler = new_scheduler svc.store api_base_url svc.publisher

  abbrev pub auditor : Audit.Service D B
  auditor = record { store = svc.store; publisher = svc.publisher }

  abbrev pub visit : Visit → World D B c.Random Bool → World D B c.Random Bool
  visit status w = (Pages.pool_status fl c svc w).1
  visit lists w = (Pages.list_keys fl c svc w).1
  visit deletes_all w = (delete_all fl c svc w).1
  visit (generates alias key_size) w = (Pages.generate_key fl c svc alias key_size w).1
  visit (deletes id) w = (delete_one fl c svc id w).1
  visit (exports id) w = (export_key fl c svc id w).1

  abbrev pub St : Type 0
  St = System D B c.Random N A

  -- A round of the collector, with the signal as it leaves it.
  abbrev pub collected : Bool → St → St
  collected signal g =
      let w =
        collect_entropy lib.web scheduler lib.deliver
          (record { db = g.keys.db; broker = g.keys.broker; net = g.net }) in
      record g {
        keys = record g.keys { db = w.db; broker = w.broker; collector = signal };
        net = w.net;
      }

  abbrev pub audit_world : St → Audit.World D B A
  audit_world g = record { db = g.keys.db; broker = g.keys.broker; random = g.chance }

  abbrev pub audited : St → Audit.World D B A → St
  audited g w = record g {
    keys = record g.keys { db = w.db; broker = w.broker };
    chance = w.random;
  }

  pub data Step (g : St) : St → Type 0 where
    serves :
        (q : Request) (body : Result GenerateRequest)
        → Step g
            (record g { keys = (serve lib.find lib.parse_uint c svc panic_route q body g.keys).1 })
    visits : (v : Visit) → Step g (record g { keys = visit v g.keys })
    ticks : Step g (collected g.keys.collector g)
    refills : g.keys.collector ≡ true → Step g (collected false g)
    audits :
        (size : ℤ)
        → Step g (audited g (run_full_audit fl lib.sources auditor size (audit_world g)).1)
    tests :
        (orders : ℕ → Deliver) (suite : String) (size seed : ℤ)
        → Step g
            (audited g (run_suites fl lib.sources auditor orders suite size seed (audit_world g)).1)

  pub data Run (g : St) : St → Type 0 where
    here : Run g g
    then_ : {h k : St} → Run g h → Step h k → Run g k
