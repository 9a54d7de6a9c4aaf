-- ===== src/Collector/Scheduler/Workers/Batch.antt =====
-- runRefillBatch over the step relation: the failures that it reports are the failed fetches.
use quantum_entropy_service.Common.{
  ℕ, suc, ◌+◌, ◌≤◌, ◌≡◌, refl, ap, ◌∙◌, Bool, List, [], ◌∷◌, Result, ok, err, subst, sym,
}
use quantum_entropy_service.Keymanager.Model.{Bytes}
use quantum_entropy_service.Collector.Scheduler.{
  World, Web, Scheduler, max_failures, refill_workers, save_records, fold_results, run_refill_batch,
}
use quantum_entropy_service.Collector.Scheduler.Workers.{Fleet, start, Run, Over}
use quantum_entropy_service.Collector.Scheduler.Workers.Bounds.{errors, run-Bounded}

-- What is delivered is what the collector has received when some interleaving is over.
pub record Delivers {N : Type 0} (deliver : ℕ → N → List (Result Bytes) × N) : Type 0 where
  pub fleet : ℕ → N → Fleet
  pub stop : ℕ → N → Bool
  pub runs : (n : ℕ) (net : N) → Run (start n (stop n net)) (fleet n net)
  pub over : (n : ℕ) (net : N) → Over (fleet n net)
  pub delivers : (n : ℕ) (net : N) → (deliver n net).0 ≡ (fleet n net).received

module _ {D B N : Type 0} (web : Web N) (s : Scheduler D B) where
  errors-fold_results :
      (results : List (Result Bytes)) (w : World D B N)
      → (fold_results web s results w).0.1 ≡ errors results
  unfolding fold_results
  errors-fold_results [] w = refl
  errors-fold_results (err e ∷ results) w = ap suc (errors-fold_results results w)
  errors-fold_results (ok bytes ∷ results) w =
      errors-fold_results results (save_records web s bytes w).1

  -- Whatever the interleaving, a batch reports at most as many failures as the limit and the workers
  -- together.
  pub run_refill_batch-Bounded :
      (deliver : ℕ → N → List (Result Bytes) × N)
      → Delivers deliver
      → (fetches : ℕ) (w : World D B N)
      → (run_refill_batch web s deliver fetches w).0.1 ≤ max_failures + refill_workers
  unfolding run_refill_batch
  run_refill_batch-Bounded deliver d fetches w =
      let results = (deliver fetches w.net).0 in
      let bounds =
        run-Bounded fetches (d.stop fetches w.net) (d.fleet fetches w.net) (d.runs fetches w.net) in
      subst (λ n. n ≤ max_failures + refill_workers)
        (sym (
          errors-fold_results results (record w { net = (deliver fetches w.net).1 })
          ∙ ap errors (d.delivers fetches w.net)))
        bounds.1
