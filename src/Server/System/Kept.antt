-- ===== src/Server/System/Kept.antt =====
-- What holds through a run of cmd/keymanager: all that each operation of the key service, a round of the
-- collector and an audit keep.
use quantum_entropy_service.Common.{ℕ, ℤ, Bool, false, Option, none, some, String, Result, ok, err}
use quantum_entropy_service.Keymanager.Model.{RsaKey}
use quantum_entropy_service.Keymanager.Crypto.{Crypto}
use quantum_entropy_service.Keymanager.Service.{World, Service, at_db}
use quantum_entropy_service.Keymanager.Service.Keys.{
  generate_key, export_private_key, pool_status, delete_key, delete_all_keys,
}
use quantum_entropy_service.Keymanager.Handler.{
  GenerateRequest, default_size, handle_generate, handle_list, handle_delete, handle_delete_all,
  handle_export, handle_pool_status,
}
use quantum_entropy_service.Audit.Floats.{Floats}
use quantum_entropy_service.Audit.Suites.Metrics.{Deliver}
use quantum_entropy_service.Audit.Runs.{run_full_audit, run_suites}
use quantum_entropy_service.Ui.Keys.{delete_all, delete_one, export_key, list_keys, generated}
use quantum_entropy_service.Ui.Keys as Pages
use quantum_entropy_service.Server.Routes.{
  Request, Route, Target, api_generate_key, api_list_keys, api_delete_key, api_delete_all_keys,
  api_export_key, api_pool_status,
}
use quantum_entropy_service.Server.Routes.Api.{serve, run_target, on_found, parse_id}
use quantum_entropy_service.Server.System.{
  System, Visit, status, lists, deletes_all, generates, deletes, exports, Libraries, visit,
  collected, audited, audit_world, auditor, Step, serves, visits, ticks, refills, audits, tests,
  Run, here, then_,
}

module _ {D B N A : Type 0} (fl : Floats) (c : Crypto) (lib : Libraries N A)
    (svc : Service D B Bool) (api_base_url : String) (panic_route : Bool) where
  abbrev W : Type 0
  W = World D B c.Random Bool

  -- A property of the service's world that no call breaks.
  pub record IsKept (G : W → Type 0) : Type 0 where
    pub generates :
        (alias : String) (key_size : ℕ) (w : W) → G w → G (generate_key c svc alias key_size w).1
    pub exports : (id : ℕ) (w : W) → G w → G (export_private_key c svc id w).1
    pub deletes : (id : ℕ) (w : W) → G w → G (delete_key c svc id w).1
    pub deletes_all : (w : W) → G w → G (delete_all_keys c svc w).1
    pub lists : (w : W) → G w → G (at_db c svc svc.keys.find_all_keys w).1
    pub counts : (w : W) → G w → G (pool_status c svc w).1
    pub collects :
        (signal : Bool) (g : System D B c.Random N A)
        → G g.keys
        → G (collected fl c lib svc api_base_url panic_route signal g).keys
    pub audits :
        (size : ℤ) (g : System D B c.Random N A)
        → G g.keys
        → G
            (audited fl c lib svc api_base_url panic_route g
              (run_full_audit fl lib.sources
                (auditor fl c lib svc api_base_url panic_route)
                size
                (audit_world fl c lib svc api_base_url panic_route g)).1).keys
    pub tests :
        (orders : ℕ → Deliver) (suite : String) (size seed : ℤ) (g : System D B c.Random N A)
        → G g.keys
        → G
            (audited fl c lib svc api_base_url panic_route g
              (run_suites fl lib.sources
                (auditor fl c lib svc api_base_url panic_route)
                orders
                suite
                size
                seed
                (audit_world fl c lib svc api_base_url panic_route g)).1).keys

  module _ (G : W → Type 0) (kept : IsKept G) where
    run_target-Kept :
        (t : Target) (id : Result ℕ) (body : Result GenerateRequest) (w : World D B c.Random Bool)
        → G w
        → G (run_target lib.find lib.parse_uint c svc panic_route t id body w).1
    unfolding handle_generate handle_list handle_delete handle_delete_all handle_export
        handle_pool_status
    run_target-Kept api_generate_key id (err e) w h = h
    run_target-Kept api_generate_key id (ok req) w h =
        kept.generates req.alias (default_size req.key_size) w h
    run_target-Kept api_list_keys id body w h = kept.lists w h
    run_target-Kept api_delete_key (err e) body w h = h
    run_target-Kept api_delete_key (ok id) body w h = kept.deletes id w h
    run_target-Kept api_delete_all_keys id body w h = kept.deletes_all w h
    run_target-Kept api_export_key (err e) body w h = h
    run_target-Kept api_export_key (ok id) body w h = kept.exports id w h
    run_target-Kept api_pool_status id body w h = kept.counts w h
    run_target-Kept target id body w h = h

    on_found-Kept :
        (o : Option Route) (q : Request) (body : Result GenerateRequest)
        (w : World D B c.Random Bool)
        → G w
        → G (on_found lib.find lib.parse_uint c svc panic_route q body o w).1
    on_found-Kept none q body w h = h
    on_found-Kept (some r) q body w h =
        run_target-Kept r.target (parse_id lib.find lib.parse_uint c svc panic_route r q) body w h

    generated-Kept :
        (r : Result RsaKey) (w : World D B c.Random Bool) → G w → G (generated fl c svc r w).1
    unfolding list_keys
    generated-Kept (err e) w h = h
    generated-Kept (ok key) w h = kept.lists w h

    visit-Kept :
        (v : Visit) (w : World D B c.Random Bool)
        → G w
        → G (visit fl c lib svc api_base_url panic_route v w)
    unfolding Pages.pool_status list_keys pool_status delete_all Pages.generate_key delete_one
        export_key
    visit-Kept status w h = kept.counts w h
    visit-Kept lists w h = kept.lists w h
    visit-Kept deletes_all w h = kept.deletes_all w h
    visit-Kept (generates alias key_size) w h =
        generated-Kept _ _ (kept.generates alias (default_size key_size) w h)
    visit-Kept (deletes (err e)) w h = h
    visit-Kept (deletes (ok id)) w h = kept.deletes id w h
    visit-Kept (exports (err e)) w h = h
    visit-Kept (exports (ok id)) w h = kept.exports id w h

    Step-Kept :
        {g k : System D B c.Random N A}
        → Step fl c lib svc api_base_url panic_route g k
        → G g.keys
        → G k.keys
    unfolding serve
    Step-Kept {g} (serves q body) h = on_found-Kept _ q body g.keys h
    Step-Kept {g} (visits v) h = visit-Kept v g.keys h
    Step-Kept {g} ticks h = kept.collects g.keys.collector g h
    Step-Kept {g} (refills full) h = kept.collects false g h
    Step-Kept {g} (audits size) h = kept.audits size g h
    Step-Kept {g} (tests orders suite size seed) h = kept.tests orders suite size seed g h

    -- It holds after every run that starts where it holds.
    pub Run-Kept :
        {g k : System D B c.Random N A}
        → Run fl c lib svc api_base_url panic_route g k
        → G g.keys
        → G k.keys
    Run-Kept here h = h
    Run-Kept (then_ r s) h = Step-Kept s (Run-Kept r h)
