-- ===== src/Tests/Pages.antt =====
-- The pages of the dashboard, the recovery, the collector's loop and the start of the server.
use quantum_entropy_service.Common.{
  arith, none, ℕ, ◌≡◌, refl, true, false, String, List, [], ◌∷◌, negsuc, some, ok, str_eq,
  if◌then◌else◌,
}
use quantum_entropy_service.Messaging.Events.{Message}
use quantum_entropy_service.Keymanager.Repository.{
  entropy_store, key_store, count_all_unused_entropy,
}
use quantum_entropy_service.Keymanager.Repository.Memory.{Memory, memory}
use quantum_entropy_service.Keymanager.Service.{new_service, check_pool_status}
use quantum_entropy_service.Messaging.Connection.{new_connection, channel}
use quantum_entropy_service.Messaging.Publisher.{publisher}
use quantum_entropy_service.Collector.Scheduler.{
  World, collect_entropy, trigger_refill, new_scheduler,
}
use quantum_entropy_service.Collector.Scheduler.Loop.{
  Loop, Steps, ◌then◌, done, triggers, refills, ticks, stops, returns, started, Keeps, Steps-Keeps,
}
use quantum_entropy_service.Audit.Endpoint.{run_audit}
use quantum_entropy_service.Ui.Keys.{delete_all}
use quantum_entropy_service.Ui.Keys as Pages
use quantum_entropy_service.Ui.Keys.Vault.{Added, generate_key-Added}
use quantum_entropy_service.Keymanager.Service.Keys as Keys
use quantum_entropy_service.Server.Recovery.{Replies, recovery, recovery-run_audit}
use quantum_entropy_service.Server.Boot.{Machine, App, boot, get_env, boot-signals}
use quantum_entropy_service.Tests.Keys.{toy, service, tables, rows_of, keys_of, stores, start}
use quantum_entropy_service.Tests.Broker.{down, marshal}
use quantum_entropy_service.Tests.Pool.{web, scheduler, empty_pool, deliver}
use quantum_entropy_service.Tests.Lab.{sources, world, audits}
use quantum_entropy_service.Tests.Numbers.{numbers}

generate_key-Added_example :
    let (r, w₁) = Keys.generate_key toy service "k" 2048 start in
    let (p, w) = Pages.generate_key numbers toy service "k" 0 start in
    Added service.keys "k" 2048 [] w.db.keys w₁.db r p
generate_key-Added_example =
    generate_key-Added numbers toy service rows_of keys_of stores "k" 0 start

recovery-run_audit_example :
    Replies (negsuc 4) (recovery (run_audit numbers sources audits (some (ok (negsuc 4)))) world).0
recovery-run_audit_example = recovery-run_audit numbers sources audits (some (ok (negsuc 4))) world

abbrev collect :
    World Memory (List Message) (List String) → World Memory (List Message) (List String)
collect = collect_entropy web scheduler deliver

-- Two signals that coalesce, a collection for them, one for the ticker, and the end.
abbrev last : Loop (World Memory (List Message) (List String))
last = record { running = false; stop = true; full = false; world = collect (collect empty_pool) }

abbrev shift : Steps collect (started empty_pool) last
unfolding started trigger_refill
shift =
    triggers
    then triggers
    then refills refl refl
    then ticks refl
    then stops refl
    then returns refl refl
    then done

Steps-Keeps_example : Keeps collect (started empty_pool) last 1 1 2
unfolding shift
Steps-Keeps_example = Steps-Keeps collect shift

abbrev machine : Machine Memory ℕ
machine = record {
  getenv = λ name. if str_eq name "MASTER_KEY_SECRET" then "s3cret" else "";
  open_db = ok tt;
  new_repository = ok (tables, entropy_store memory, key_store memory);
  bytes_of = λ s. 7 ∷ [];
  net = 0;
}

abbrev app : App Memory ℕ
unfolding new_connection channel new_scheduler started
app = record {
  port = "8082";
  service = record {
    store = entropy_store memory;
    keys = key_store memory;
    publisher = some (publisher down marshal);
    master_secret = 7 ∷ [];
    on_pool_low = some trigger_refill;
  };
  scheduler =
      new_scheduler (entropy_store memory) "http://quantum-api:8081"
        (some (publisher down marshal));
  collector = started (record { db = tables; broker = (channel down new_connection).1; net = 0 });
  audits = record { store = entropy_store memory; publisher = some (publisher down marshal) };
  panic_route = false;
}

boot-signals_example :
    ((check_pool_status toy app.service (record {
      db = tables;
      broker = new_connection;
      random = 40;
      collector = false;
      derived = none;
    })).1.collector
      ≡ true)
    × (app.collector.running ≡ true)
unfolding boot app new_service get_env count_all_unused_entropy
boot-signals_example =
    boot-signals machine down marshal toy app 8 tables
      (record {
        db = tables;
        broker = new_connection;
        random = 40;
        collector = false;
        derived = none;
      })
      refl refl (omega arith)
