-- ===== src/Tests/System.antt =====
-- Two sessions with cmd/keymanager, and what is known of them.
use quantum_entropy_service.Common.{pos, false, List, [], ◌∷◌, String, ok, ℕ, All, refl}
use quantum_entropy_service.Messaging.Events.{Message}
use quantum_entropy_service.Keymanager.Repository.Memory.{Memory, memory}
use quantum_entropy_service.Keymanager.Service.Keys.{
  export_private_key, generate_key, wrap_key, aes_gcm_encrypt,
}
use quantum_entropy_service.Keymanager.Service.Export.{Exported}
use quantum_entropy_service.Server.System.{
  System, Libraries, Run, here, then_, serves, visits, ticks, audits, lists,
}
use quantum_entropy_service.Server.System.Exports.{Run-Exported}
use quantum_entropy_service.Server.Routes.{post, routes}
use quantum_entropy_service.Keymanager.Model.{QuantumData}
use quantum_entropy_service.Keymanager.Stores.{Distinct}
use quantum_entropy_service.Keymanager.Stores.Pool.{Apart}
use quantum_entropy_service.Keymanager.Stores.History.{Extends}
use quantum_entropy_service.Keymanager.Repository.{
  consume_entropy, find_all_keys, save_key, count_all_unused_entropy,
}
use quantum_entropy_service.Keymanager.Service.{master_key, check_pool_status}
use quantum_entropy_service.Ui.Keys.{list_keys}
use quantum_entropy_service.Server.Routes.Api.{serve}
use quantum_entropy_service.Keymanager.Handler.{handle_generate}
use quantum_entropy_service.Server.System.Entropy.{Run-Lasts, Run-disjoint}
use quantum_entropy_service.Tests.Keys.{
  tables, tables-Distinct, row, toy, toy-IsCrypto, service, stores, rows_of, keys_of, start,
}
use quantum_entropy_service.Tests.Numbers.{numbers}
use quantum_entropy_service.Tests.Lab.{sources}
use quantum_entropy_service.Tests.Pool.{web, deliver}
use quantum_entropy_service.Tests.Router.{first_match, parse_digit}

abbrev libraries : Libraries (List String) ℕ
libraries = record {
  find = first_match;
  parse_uint = parse_digit;
  web = web;
  deliver = deliver;
  sources = sources;
}

abbrev G : Type 0
G = System Memory (List Message) ℕ (List String) ℕ

abbrev begun : G
begun = record { keys = start; net = []; chance = 0 }

-- A key is made, the collector goes its round, an audit runs, and the keys are listed.
abbrev session : (g : G) × Run numbers toy libraries service "" false begun g
session = (
  _,
  then_
      (then_
        (then_
          (then_ here (
            serves (record { method = post; path = "api" ∷ "v1" ∷ "keys" ∷ [] })
              (ok (record { alias = "k"; key_size = 2048 }))))
          ticks)
        (audits (pos 3)))
      (visits lists),
)

Run-Exported_example :
    Exported toy service rows_of keys_of stores 1
      (keys_of session.0.keys.db)
      (export_private_key toy service 1 session.0.keys).0
Run-Exported_example =
    Run-Exported numbers toy libraries service "" false rows_of keys_of toy-IsCrypto stores
      session.1 (tt, tt) 1

Run-Lasts_example :
    Distinct (rows_of session.0.keys.db) × Extends tables.rows (rows_of session.0.keys.db)
Run-Lasts_example =
    Run-Lasts numbers toy libraries service "" false rows_of keys_of stores session.1
      tables-Distinct

-- Two records are taken by hand, then a client makes a key and the dashboard lists it.
abbrev after_two : G
after_two = record begun { keys = record start { db = (consume_entropy memory 2 tables).1 } }

abbrev made : (g : G) × Run numbers toy libraries service "" false after_two g
made = (
  _,
  then_
      (then_ here (
        serves (record { method = post; path = "api" ∷ "v1" ∷ "keys" ∷ [] })
          (ok (record { alias = "k"; key_size = 2048 }))))
      (visits lists),
)

abbrev first_two : List QuantumData
first_two = row 2 false ∷ row 3 false ∷ []

abbrev last_one : List QuantumData
last_one = row 9 false ∷ []

Run-disjoint_example : All (λ q. Apart q last_one) first_two
unfolding consume_entropy generate_key handle_generate list_keys find_all_keys serve routes wrap_key
    aes_gcm_encrypt master_key save_key check_pool_status count_all_unused_entropy
Run-disjoint_example =
    Run-disjoint numbers toy libraries service "" false rows_of keys_of stores 2 1 tables
      (consume_entropy memory 1 made.0.keys.db).1 first_two last_one tables-Distinct refl made.1
      refl
