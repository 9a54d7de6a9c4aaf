-- ===== src/Server/System/Entropy.antt =====
-- What becomes of the entropy records while cmd/keymanager runs.
use quantum_entropy_service.Common.{ℕ, Bool, List, String, ◌≡◌, ok, All, subst, sym, take}
use quantum_entropy_service.Keymanager.Model.{QuantumData, RsaKey}
use quantum_entropy_service.Keymanager.Stores.{AreStores, Distinct, unused, use_first}
use quantum_entropy_service.Keymanager.Stores.Pool.{Apart, consumed, Distinct-use_first}
use quantum_entropy_service.Keymanager.Stores.Spent.{HasUsed-later, HasUsed-use_first}
use quantum_entropy_service.Keymanager.Stores.History.{
  IsInvariant, Lasts, Extends, Extends-refl, Lasts-IsInvariant,
}
use quantum_entropy_service.Keymanager.Crypto.{Crypto}
use quantum_entropy_service.Keymanager.Service.{Service}
use quantum_entropy_service.Keymanager.Service.Invariant.{
  generate_key-Safe, export_private_key-Safe, delete_key-Safe, find_all_keys-Safe,
  delete_all_keys-Safe, pool_status-Safe,
}
use quantum_entropy_service.Collector.Scheduler.Frames.{collect_entropy-In}
use quantum_entropy_service.Audit.Floats.{Floats}
use quantum_entropy_service.Audit.Runs.Frames.{run_full_audit-In, run_suites-In}
use quantum_entropy_service.Server.System.{System, Libraries, scheduler, auditor, Run}
use quantum_entropy_service.Server.System.Kept.{IsKept, Run-Kept}

module _ {D B N A : Type 0} (fl : Floats) (c : Crypto) (lib : Libraries N A)
    (svc : Service D B Bool) (api_base_url : String) (panic_route : Bool) where
  -- What the stores keep of the tables, each call of the system keeps.
  tables-IsKept :
      (P : D → Type 0)
      → IsInvariant svc.store svc.keys P
      → IsKept fl c lib svc api_base_url panic_route (λ w. P w.db)
  unfolding scheduler
  tables-IsKept P inv = record {
    generates = λ alias key_size. (generate_key-Safe c svc P inv alias key_size).at;
    exports = λ id. (export_private_key-Safe c svc P inv id).at;
    deletes = λ id. (delete_key-Safe c svc P inv id).at;
    deletes_all = (delete_all_keys-Safe c svc P inv).at;
    lists = (find_all_keys-Safe c svc P inv).at;
    counts = (pool_status-Safe c svc P inv).at;
    collects = λ signal g.
        collect_entropy-In lib.web (scheduler fl c lib svc api_base_url panic_route) P inv.saves
          inv.counts lib.deliver _;
    audits = λ size g.
        run_full_audit-In fl lib.sources (auditor fl c lib svc api_base_url panic_route) P
          (inv.finds "LFD") size _;
    tests = λ orders suite size seed g.
        run_suites-In fl lib.sources (auditor fl c lib svc api_base_url panic_route) P
          (inv.finds "LFD") orders suite size seed _;
  }

  -- Over stores that keep their laws, from a table of entropy records with distinct IDs: however
  -- requests to the API and to the key pages of the dashboard, rounds of the collector and audits
  -- follow one another, one whole call after another, the IDs stay distinct, and every record that
  -- was there is still there, in its place and with its data, and is unused only if it was unused.
  pub Run-Lasts :
      (pool : D → List QuantumData) (vault : D → List RsaKey)
      (stores : AreStores svc.store svc.keys pool vault) {g k : System D B c.Random N A}
      → Run fl c lib svc api_base_url panic_route g k
      → Distinct (pool g.keys.db)
      → Distinct (pool k.keys.db) × Extends (pool g.keys.db) (pool k.keys.db)
  Run-Lasts pool vault stores {g} r d =
      Run-Kept fl c lib svc api_base_url panic_route (λ w. Lasts (pool g.keys.db) (pool w.db))
        (tables-IsKept (λ s. Lasts (pool g.keys.db) (pool s))
          (Lasts-IsInvariant (pool g.keys.db) svc.store svc.keys pool vault stores))
        r (d, Extends-refl (pool g.keys.db))

  -- Over stores that keep their laws, from a table with distinct IDs: what a successful
  -- `ConsumeEntropy` returns has other IDs than all that an earlier one returned, however requests
  -- to the API and to the key pages of the dashboard, rounds of the collector and audits follow one
  -- another between the two.
  pub Run-disjoint :
      (pool : D → List QuantumData) (vault : D → List RsaKey)
      (stores : AreStores svc.store svc.keys pool vault) (n m : ℕ) (s s' : D)
      (records later : List QuantumData) {g k : System D B c.Random N A}
      → Distinct (pool s)
      → svc.store.consume_entropy n s ≡ (ok records, g.keys.db)
      → Run fl c lib svc api_base_url panic_route g k
      → svc.store.consume_entropy m k.keys.db ≡ (ok later, s')
      → All (λ q. Apart q later) records
  Run-disjoint pool vault stores n m s s' records later {g} {k} d e r e' =
      let (taken, _, left) = consumed svc.store pool stores.entropy n s g.keys.db records d e in
      let distinct = subst Distinct (sym left) (Distinct-use_first n (pool s) d) in
      let (distinct', grown) = Run-Lasts pool vault stores r distinct in
      let (taken', _, _) =
        consumed svc.store pool stores.entropy m k.keys.db s' later distinct' e' in
      let handed = subst (λ rows. Extends rows (pool k.keys.db)) left grown in
      rw (taken, taken')
        (HasUsed-later m (take n (unused (pool s))) (use_first n (pool s)) (pool k.keys.db)
          distinct' handed (HasUsed-use_first n (pool s)))
