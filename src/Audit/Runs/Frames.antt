-- ===== src/Audit/Runs/Frames.antt =====
-- What an audit keeps of the tables: all that looking for unused records keeps.
use quantum_entropy_service.Common.{
  ℤ, ℕ, ◌≡◌, refl, sym, subst, [], ◌∷◌, String, Option, none, some, Result, ok, err,
}
use quantum_entropy_service.Keymanager.Model.{Bytes}
use quantum_entropy_service.Audit.Floats.{Floats}
use quantum_entropy_service.Audit.Suites.Metrics.{Deliver}
use quantum_entropy_service.Audit.Suites.Registry.{SuiteDef, registry, find_suite}
use quantum_entropy_service.Audit.Samples.{
  Ran, returned, panicked, Sources, on_found, get_quantum_sample,
}
use quantum_entropy_service.Audit.Runs.{
  World, Service, announce_start, announce_complete, csprng_sample, on_sample, report, suite_result,
  run_full_audit, on_suite, run_suites, default_prng_seed, effective_seed,
}

module _ {D B R : Type 0} (fl : Floats) (src : Sources R) (svc : Service D B) (P : D → Type 0)
    (finds : (d : D) → P d → P (svc.store.find_all_unused_by_source "LFD" d).1) where
  on_sample-db :
      {Y : Type 0} (size seed : ℤ) (make : Bytes → Bytes → Bytes → Y) (r : Ran (Result Bytes))
      (w : World D B R)
      → (on_sample fl src svc size seed make r w).1.db ≡ w.db
  unfolding announce_start announce_complete csprng_sample
  on_sample-db size seed make panicked w = refl
  on_sample-db size seed make (returned (err e)) w = refl
  on_sample-db size seed make (returned (ok [])) w = refl
  on_sample-db size seed make (returned (ok (b ∷ sample))) w = refl

  sampled-In :
      {Y : Type 0} (size seed : ℤ) (make : Bytes → Bytes → Bytes → Y) (w : World D B R)
      → P w.db
      → let (found, db) = svc.store.find_all_unused_by_source "LFD" w.db in
        P
          (on_sample fl src svc size seed make
            (on_found src "LFD" size found)
            (record w { db = db })).1.db
  sampled-In size seed make w h =
      let (found, db) = svc.store.find_all_unused_by_source "LFD" w.db in
      subst P
        (sym (on_sample-db size seed make (on_found src "LFD" size found) (record w { db = db })))
        (finds w.db h)

  -- A full audit keeps every property of the tables that looking for unused records keeps.
  pub run_full_audit-In :
      (size : ℤ) (w : World D B R) → P w.db → P (run_full_audit fl src svc size w).1.db
  unfolding run_full_audit get_quantum_sample
  run_full_audit-In size w h = sampled-In size default_prng_seed (report fl src svc) w h

  -- So does a suite of the lab, known or not.
  pub run_suites-In :
      (orders : ℕ → Deliver) (suite : String) (size seed : ℤ) (w : World D B R)
      → P w.db
      → P (run_suites fl src svc orders suite size seed w).1.db
  unfolding run_suites get_quantum_sample on_suite
  run_suites-In orders suite size seed w h = go (find_suite suite (registry fl))
    where
      go : (o : Option SuiteDef) → P (on_suite fl src svc o orders size seed w).1.db
      go none = h
      go (some def) = sampled-In size (effective_seed seed) (suite_result fl src svc def orders) w h
