-- ===== src/Audit/Runs/Fair.antt =====
-- RunSuites under different orders in which the goroutines of a suite finish.
use mathlib.Core.Path.{fun_ext}
use quantum_entropy_service.Common.{ℤ, ℕ, ◌≡◌, refl, ap, String, Option, none, some}
use quantum_entropy_service.Keymanager.Model.{Bytes}
use quantum_entropy_service.Audit.Floats.{Floats}
use quantum_entropy_service.Audit.Suites.Metrics.{Deliver}
use quantum_entropy_service.Audit.Suites.Ordered.{
  Fair, OrderFree, registry-OrderFree, Found, find_suite-Found,
}
use quantum_entropy_service.Audit.Suites.Registry.{SuiteDef, registry, find_suite}
use quantum_entropy_service.Audit.Samples.{Sources, get_quantum_sample}
use quantum_entropy_service.Audit.Runs.{
  World, Service, on_sample, suite_result, on_suite, run_suites, effective_seed,
}

module _ {D B R : Type 0} (fl : Floats) (src : Sources R) (svc : Service D B) where
  on_suite-same :
      (def : Option SuiteDef) (orders orders' : ℕ → Deliver) (size seed : ℤ) (w : World D B R)
      → Found OrderFree def
      → ((i : ℕ) → Fair (orders i))
      → ((i : ℕ) → Fair (orders' i))
      → on_suite fl src svc def orders size seed w ≡ on_suite fl src svc def orders' size seed w
  unfolding on_suite
  on_suite-same none orders orders' size seed w free f f' = refl
  on_suite-same (some def) orders orders' size seed w free f f' =
      let (sample, db) = get_quantum_sample src svc.store "LFD" size w.db in
      ap
        (λ make. on_sample fl src svc size (effective_seed seed) make sample (record w { db = db }))
        (fun_ext (λ q. fun_ext (λ c. fun_ext (λ r.
          rows (free (orders 0) (orders' 0) (f 0) (f' 0) q)
            (free (orders 1) (orders' 1) (f 1) (f' 1) c)
            (free (orders 2) (orders' 2) (f 2) (f' 2) r)))))
    where
      rows :
          {q c r : Bytes}
          → def.run (orders 0) q ≡ def.run (orders' 0) q
          → def.run (orders 1) c ≡ def.run (orders' 1) c
          → def.run (orders 2) r ≡ def.run (orders' 2) r
          → suite_result fl src svc def orders q c r ≡ suite_result fl src svc def orders' q c r
      rows a b c = cc

  -- With orders of delivery in which every closure's result arrives and nothing else does, a run of a
  -- suite has the same result and leaves the same state, whatever these orders are.
  pub run_suites-same :
      (orders orders' : ℕ → Deliver) (suite_id : String) (size seed : ℤ) (w : World D B R)
      → ((i : ℕ) → Fair (orders i))
      → ((i : ℕ) → Fair (orders' i))
      → run_suites fl src svc orders suite_id size seed w
        ≡ run_suites fl src svc orders' suite_id size seed w
  unfolding run_suites
  run_suites-same orders orders' suite_id size seed w f f' =
      on_suite-same (find_suite suite_id (registry fl)) orders orders' size seed w
        (find_suite-Found OrderFree suite_id (registry fl) (registry-OrderFree fl)) f f'
