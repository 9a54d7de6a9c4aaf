-- ===== src/Audit/Runs/Returns.antt =====
-- What RunFullAudit and RunSuites return for a size that is not negative.
use quantum_entropy_service.Common.{
  ℕ, ℤ, pos, ltb, ◌≤◌, ◌<◌, Bool, true, false, ◌≡◌, ◌⊎◌, inl, inr, refl, String, List, [], ◌∷◌,
  Option, none, some, Result, ok, err, length, length-take, take, if◌then◌else◌, GoError, arith,
}
use quantum_entropy_service.Keymanager.Model.{Bytes, QuantumData}
use quantum_entropy_service.Audit.Floats.{Floats}
use quantum_entropy_service.Audit.Samples.{
  Ran, returned, panicked, Sources, on_found, cut, gather, get_quantum_sample,
}
use quantum_entropy_service.Audit.Suites.Metrics.{Deliver}
use quantum_entropy_service.Audit.Suites.Registry.{SuiteDef, registry, find_suite}
use quantum_entropy_service.Audit.Runs.{
  World, Service, on_sample, report, suite_result, on_suite, run_full_audit, run_suites,
  default_prng_seed, effective_seed, err_no_quantum_data, err_unknown_suite,
}

-- A call returns, with a result of which P holds.
abbrev pub Returns : {A : Type 0} → (A → Type 0) → Ran A → Type 0
Returns P (returned a) = P a
Returns P panicked = ⊥

-- A result, or an error of the given kinds.
abbrev pub Gives : {A : Type 0} → (A → Type 0) → (GoError → Type 0) → Result A → Type 0
Gives P E (ok a) = P a
Gives P E (err e) = E e

AtMost : ℕ → Result Bytes → Type 0
AtMost n r = Gives (λ s. length s ≤ n) (λ e. Unit {0}) r

-- Three sources, and a sample of at least one byte and at most as many as were asked for.
abbrev pub Sized : {A : Type 0} → (A → ℕ) → (A → ℕ) → ℕ → A → Type 0
Sized sample_size sources n a = (0 < sample_size a) × (sample_size a ≤ n) × (sources a ≡ 3)

module _ {D B R : Type 0} (fl : Floats) (src : Sources R) (svc : Service D B) where
  cut-AtMost : (n : ℕ) (sample : Bytes) → Returns (AtMost n) (cut src (pos n) sample)
  unfolding cut AtMost
  cut-AtMost n sample = branch (ltb n (length sample)) refl
    where
      branch :
          (t : Bool)
          → ltb n (length sample) ≡ t
          → Returns (AtMost n) (if t then returned (ok (take n sample)) else returned (ok sample))
      branch true e = omega (arith, length-take n sample)
      branch false e = ground (arith, e)

  on_found-AtMost :
      (source : String) (n : ℕ) (r : Result (List QuantumData))
      → Returns (AtMost n) (on_found src source (pos n) r)
  unfolding AtMost
  on_found-AtMost source n (err e) = tt
  on_found-AtMost source n (ok []) = tt
  on_found-AtMost source n (ok (q ∷ qs)) = cut-AtMost n (gather src (pos n) [] (q ∷ qs))

  on_sample-Returns :
      {A : Type 0} (P : A → Type 0) (n : ℕ) (size seed : ℤ) (make : Bytes → Bytes → Bytes → A)
      (sample : Ran (Result Bytes)) (w : World D B R)
      → Returns (AtMost n) sample
      → ((q c r : Bytes) → 0 < length q → length q ≤ n → P (make q c r))
      → Returns
          (Gives P (λ e. e ≡ err_no_quantum_data))
          (on_sample fl src svc size seed make sample w).0
  unfolding AtMost
  on_sample-Returns P n size seed make panicked w s h = s
  on_sample-Returns P n size seed make (returned (err e)) w s h = refl
  on_sample-Returns P n size seed make (returned (ok [])) w s h = refl
  on_sample-Returns P n size seed make (returned (ok (b ∷ sample))) w s h =
      h (b ∷ sample) _ _ (omega arith) s

  -- For a size that is not negative, the audit returns a report on three sources, of a sample of at
  -- least one byte and at most that size, or the error that there is no quantum data.
  pub run_full_audit-Returns :
      (n : ℕ) (w : World D B R)
      → Returns
          (Gives
            (Sized (λ a. a.sample_size) (λ a. length a.results) n)
            (λ e. e ≡ err_no_quantum_data))
          (run_full_audit fl src svc (pos n) w).0
  unfolding run_full_audit get_quantum_sample
  run_full_audit-Returns n w =
      let (found, db) = svc.store.find_all_unused_by_source "LFD" w.db in
      on_sample-Returns (Sized (λ a. a.sample_size) (λ a. length a.results) n) n (pos n)
        default_prng_seed (report fl src svc) (on_found src "LFD" (pos n) found)
        (record w { db = db }) (on_found-AtMost "LFD" n found) (λ q c r l u. (l, u, refl))

  on_suite-Returns :
      (def : Option SuiteDef) (orders : ℕ → Deliver) (n : ℕ) (seed : ℤ) (w : World D B R)
      → Returns
          (Gives
            (Sized (λ a. a.sample_size) (λ a. length a.results) n)
            (λ e. (e ≡ err_no_quantum_data) ⊎ (e ≡ err_unknown_suite)))
          (on_suite fl src svc def orders (pos n) seed w).0
  unfolding on_suite get_quantum_sample
  on_suite-Returns none orders n seed w = inr refl
  on_suite-Returns (some def) orders n seed w =
      let (found, db) = svc.store.find_all_unused_by_source "LFD" w.db in
      loosen (Sized (λ a. a.sample_size) (λ a. length a.results) n) _ (
        on_sample-Returns (Sized (λ a. a.sample_size) (λ a. length a.results) n) n (pos n)
          (effective_seed seed) (suite_result fl src svc def orders)
          (on_found src "LFD" (pos n) found) (record w { db = db }) (on_found-AtMost "LFD" n found)
          (λ q c r l u. (l, u, refl)))
    where
      loosen :
          {A : Type 0} (P : A → Type 0) (r : Ran (Result A))
          → Returns (Gives P (λ e. e ≡ err_no_quantum_data)) r
          → Returns (Gives P (λ e. (e ≡ err_no_quantum_data) ⊎ (e ≡ err_unknown_suite))) r
      loosen P panicked h = h
      loosen P (returned (ok a)) h = h
      loosen P (returned (err e)) h = inl h

  -- For a size that is not negative, a run of a suite returns a result on three sources, of a sample
  -- of at least one byte and at most that size, or the error that there is no quantum data or no such
  -- suite.
  pub run_suites-Returns :
      (orders : ℕ → Deliver) (suite_id : String) (n : ℕ) (seed : ℤ) (w : World D B R)
      → Returns
          (Gives
            (Sized (λ a. a.sample_size) (λ a. length a.results) n)
            (λ e. (e ≡ err_no_quantum_data) ⊎ (e ≡ err_unknown_suite)))
          (run_suites fl src svc orders suite_id (pos n) seed w).0
  unfolding run_suites
  run_suites-Returns orders suite_id n seed w =
      on_suite-Returns (find_suite suite_id (registry fl)) orders n seed w
