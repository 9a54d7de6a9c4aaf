-- ===== src/Server/Recovery.antt =====
-- Recovery (internal/middleware/recovery.go): what a client gets of a handler that may panic.
use quantum_entropy_service.Common.{
  length, ◌⊎◌, inl, inr, subst, sym, [], ℕ, ℤ, pos, negsuc, ◌≡◌, refl, String, List, ◌∷◌, Option,
  Result, ok, err,
}
use quantum_entropy_service.Keymanager.Model.{QuantumData}
use quantum_entropy_service.Audit.Floats.{Floats}
use quantum_entropy_service.Audit.Samples.{
  Ran, returned, panicked, Sources, on_found, cut, get_quantum_sample,
}
use quantum_entropy_service.Audit.Runs.{
  World, Service, AuditReport, err_no_quantum_data, on_sample, report, run_full_audit,
  default_prng_seed,
}
use quantum_entropy_service.Audit.Runs.Returns.{Returns, Gives, Sized, run_full_audit-Returns}
use quantum_entropy_service.Audit.Endpoint.{
  Answer, reported, empty_report, server_error, size_of_query, answer_of, run_audit,
}

-- What the client gets: the handler's answer, or a 500 with the text of the error.
pub data Served (A : Type 0) : Type 0 where
  answered : A → Served A
  aborted : (status : ℕ) (error : String) → Served A

abbrev recovered : {A : Type 0} → Ran A → Served A
recovered (returned a) = answered a
recovered panicked = aborted 500 "internal server error"

-- What the handler did before it panicked stays done.
unfoldable pub recovery : {W A : Type 0} → (W → Ran A × W) → W → Served A × W
recovery handler w = let (r, w') = handler w in (recovered r, w')

-- The answer to a size that is not negative.
abbrev pub Reports : {F : Type 0} → ℕ → Served (Answer F) → Type 0
Reports n (answered (reported report)) = Sized (λ a. a.sample_size) (λ a. length a.results) n report
Reports n (answered empty_report) = Unit {0}
Reports n (answered (server_error e)) = ⊥
Reports n (aborted status e) = ⊥

-- The answer to any size.
abbrev pub Replies : {F : Type 0} → ℤ → Served (Answer F) → Type 0
Replies (pos n) a = Reports n a
Replies (negsuc n) a = (a ≡ answered empty_report) ⊎ (a ≡ aborted 500 "internal server error")

module _ {D B R : Type 0} (fl : Floats) (src : Sources R) (svc : Service D B) where
  recovered-Reports :
      (n : ℕ) (r : Ran (Result (AuditReport fl.F)))
      → Returns
          (Gives
            (Sized (λ a. a.sample_size) (λ a. length a.results) n)
            (λ e. e ≡ err_no_quantum_data))
          r
      → Reports n (recovered (answer_of r))
  recovered-Reports n panicked h = h
  recovered-Reports n (returned (ok report)) h = h
  recovered-Reports n (returned (err e)) h =
      subst (λ e. Reports {F = fl.F} n (recovered (answer_of (returned (err e))))) (sym h) tt

  negative :
      (n : ℕ) (found : Result (List QuantumData)) (w : World D B R)
      → let sample = on_found src "LFD" (negsuc n) found in
        Replies (negsuc n) (
          recovered (
            answer_of
              (on_sample fl src svc (negsuc n) default_prng_seed (report fl src svc) sample w).0))
  unfolding cut
  negative n (err e) w = inl refl
  negative n (ok []) w = inl refl
  negative n (ok (q ∷ qs)) w = inr refl

  replies :
      (size : ℤ) (w : World D B R)
      → Replies size (recovered (answer_of (run_full_audit fl src svc size w).0))
  unfolding run_full_audit get_quantum_sample
  replies (pos n) w =
      recovered-Reports n (run_full_audit fl src svc (pos n) w).0
        (run_full_audit-Returns fl src svc n w)
  replies (negsuc n) w =
      let (found, db) = svc.store.find_all_unused_by_source "LFD" w.db in
      negative n found (record w { db = db })

  -- Behind Recovery the endpoint of the audit always answers. To a size that is not negative it
  -- answers with a report on three sources, of a sample of at least one byte and at most that size,
  -- or with an empty report, never with an error; to a negative size with an empty report or with 500.
  pub recovery-run_audit :
      (query : Option (Result ℤ)) (w : World D B R)
      → Replies (size_of_query query) (recovery (run_audit fl src svc query) w).0
  unfolding recovery run_audit
  recovery-run_audit query w = replies (size_of_query query) w
