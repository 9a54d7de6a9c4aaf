-- ===== src/Server/System/Exports.antt =====
-- That every export from cmd/keymanager gives the right key.
use quantum_entropy_service.Common.{◌∙◌, refl, ℕ, ◌≡◌, sym, subst, Bool, List, String, All}
use quantum_entropy_service.Keymanager.Model.{QuantumData, RsaKey}
use quantum_entropy_service.Keymanager.Stores.{AreStores}
use quantum_entropy_service.Keymanager.Crypto.{Crypto, IsCrypto}
use quantum_entropy_service.Keymanager.Service.{Service, World}
use quantum_entropy_service.Keymanager.Service.Keys.{export_private_key}
use quantum_entropy_service.Keymanager.Service.Wrap.{IsSealed}
use quantum_entropy_service.Keymanager.Service.Sealed.{AllSealed, generate_key-AllSealed}
use quantum_entropy_service.Keymanager.Service.Kept.{
  export_private_key-AllSealed, delete_key-AllSealed, find_all_keys-AllSealed,
  delete_all_keys-AllSealed, pool_status-AllSealed,
}
use quantum_entropy_service.Keymanager.Service.Export.{Exported, export_private_key-Exported}
use quantum_entropy_service.Server.System.Kept.{IsKept, Run-Kept}
use quantum_entropy_service.Collector.Scheduler.Frames.{collect_entropy-In}
use quantum_entropy_service.Audit.Floats.{Floats}
use quantum_entropy_service.Audit.Runs.Frames.{run_full_audit-In, run_suites-In}
use quantum_entropy_service.Server.System.{System, Libraries, collected, scheduler, auditor, Run}

module _ {D B N A : Type 0} (fl : Floats) (c : Crypto) (lib : Libraries N A)
    (svc : Service D B Bool) (api_base_url : String) (panic_route : Bool)
    (pool : D → List QuantumData) (vault : D → List RsaKey) (crypto : IsCrypto c)
    (stores : AreStores svc.store svc.keys pool vault) where
  abbrev Good : World D B c.Random Bool → Type 0
  Good = AllSealed c svc pool vault

  collected-vault :
      (signal : Bool) (g : System D B c.Random N A)
      → vault (collected fl c lib svc api_base_url panic_route signal g).keys.db ≡ vault g.keys.db
  unfolding scheduler
  collected-vault signal g =
      collect_entropy-In lib.web (scheduler fl c lib svc api_base_url panic_route)
        (λ d. vault d ≡ vault g.keys.db) (λ q d e. stores.apart.vault-save_entropy q d ∙ e)
        (λ d e. stores.apart.vault-count d ∙ e) lib.deliver _ refl

  sealed-IsKept : IsKept fl c lib svc api_base_url panic_route Good
  sealed-IsKept = record {
    generates = generate_key-AllSealed c svc pool vault crypto stores;
    exports = export_private_key-AllSealed c svc pool vault stores;
    deletes = delete_key-AllSealed c svc pool vault stores;
    deletes_all = delete_all_keys-AllSealed c svc pool vault stores;
    lists = find_all_keys-AllSealed c svc pool vault stores;
    counts = pool_status-AllSealed c svc pool vault stores;
    collects =
        λ signal g h. (subst (All (IsSealed c svc)) (sym (collected-vault signal g)) h.0, h.1);
    audits = λ size g h. (
      run_full_audit-In fl lib.sources (auditor fl c lib svc api_base_url panic_route)
          (λ d. All (IsSealed c svc) (vault d)) found_sealed size _ h.0,
      h.1,
    );
    tests = λ orders suite size seed g h. (
      run_suites-In fl lib.sources (auditor fl c lib svc api_base_url panic_route)
          (λ d. All (IsSealed c svc) (vault d)) found_sealed orders suite size seed _ h.0,
      h.1,
    );
  }
    where
      found_sealed :
          (d : D)
          → All (IsSealed c svc) (vault d)
          → All (IsSealed c svc) (vault (svc.store.find_all_unused_by_source "LFD" d).1)
      found_sealed d h = subst (All (IsSealed c svc)) (sym (stores.apart.vault-find "LFD" d)) h

  -- Over stores and a cryptography that keep their laws, from a vault without keys or with keys that
  -- are sealed: however requests to the API and to the key pages of the dashboard, rounds of the
  -- collector and audits follow one another, one whole call after another, each export that succeeds
  -- afterwards returns the private key that belongs to the public key stored under that ID.
  pub Run-Exported :
      {g k : System D B c.Random N A}
      → Run fl c lib svc api_base_url panic_route g k
      → AllSealed c svc pool vault g.keys
      → (id : ℕ)
      → Exported c svc pool vault stores id (vault k.keys.db) (export_private_key c svc id k.keys).0
  Run-Exported {k = k} r h id =
      export_private_key-Exported c svc pool vault stores id k.keys
        (Run-Kept fl c lib svc api_base_url panic_route Good sealed-IsKept r h)
