-- ===== src/Audit/Suites/Short.antt =====
-- What the NIST suite says of samples that are too short for a test.
use quantum_entropy_service.Common.{
  ℕ, ◌*◌, ◌<◌, ◌≡◌, refl, ap, ◌∙◌, [], ◌∷◌, length, some, String, ap₂, false, get_elem?, ltb, ◌==◌,
  ◌||◌, true, Bool, arith, if◌then◌else◌,
}
use quantum_entropy_service.Keymanager.Model.{Bytes}
use quantum_entropy_service.Audit.Floats.{Floats, IsFloats}
use quantum_entropy_service.Audit.Suites.{verdict_fail}
use quantum_entropy_service.Audit.Suites.Metrics.{Deliver, metric, p_metric, run_nist, nist_results}
use quantum_entropy_service.Audit.Suites.Ordered.{Fair, fan_in-concat}
use quantum_entropy_service.Audit.Suites.Verdicts.{verdicts-nan}
use quantum_entropy_service.Audit.Validators.{to_bits}
use quantum_entropy_service.Audit.Validators.Nist.{nist_longest_run_of_ones}
use quantum_entropy_service.Audit.Validators.Patterns.{nist_approximate_entropy}

length-to_bits : (bytes : Bytes) → length (to_bits bytes) ≡ 8 * length bytes
unfolding to_bits
length-to_bits [] = refl
length-to_bits (b ∷ bytes) = omega (arith, length-to_bits bytes)

-- The result of a chain of guards of which the last holds, and all of which give the same.
guarded : {A : Type 0} (a b : A) (t u : Bool) → u ≡ true → (if t then a else if u then a else b) ≡ a
guarded a b true u e = refl
guarded a b false true e = refl
guarded a b false false e = ground (arith, e)

below : (n m : ℕ) → n < m → ltb n m ≡ true
below n m h = ground (arith, h)

module _ (fl : Floats) (laws : IsFloats fl) where
  nist_longest_run_of_ones-short :
      (bits : Bytes) → length bits < 128 → nist_longest_run_of_ones fl bits ≡ fl.nan
  unfolding nist_longest_run_of_ones
  nist_longest_run_of_ones-short bits h =
      guarded fl.nan _ false (ltb (length bits) 128) (below (length bits) 128 h)

  nist_approximate_entropy-short :
      (bits : Bytes) → length bits < 32 → nist_approximate_entropy fl bits 5 ≡ fl.nan
  unfolding nist_approximate_entropy
  nist_approximate_entropy-short bits h =
      guarded fl.nan _ (length bits == 0 || ltb 5 1) (ltb (length bits) 32)
        (below (length bits) 32 h)

  p_metric-nan :
      (name : String) (p : fl.F)
      → p ≡ fl.nan
      → some (p_metric fl name p) ≡ some (metric name "n/a" "p >= 0.01" verdict_fail)
  p_metric-nan name p e =
      let (_, _, _, _, fails, shown) = verdicts-nan fl laws p p p p in
      ap (λ q. some (p_metric fl name q)) e
      ∙ ap₂ (λ value verdict. some (metric name value "p >= 0.01" verdict)) shown fails

  -- In any order of delivery: of fewer than 16 bytes the longest run of ones, and of fewer than 4 the
  -- approximate entropy, is shown as not available, with the verdict "fail".
  pub run_nist-short :
      (deliver : Deliver) (bytes : Bytes)
      → Fair deliver
      → (length bytes < 16
          → get_elem? (run_nist fl deliver bytes) 3
            ≡ some (metric "Longest Run of Ones" "n/a" "p >= 0.01" verdict_fail))
        × (length bytes < 4
            → get_elem? (run_nist fl deliver bytes) 4
              ≡ some (metric "Approximate Entropy (m=5)" "n/a" "p >= 0.01" verdict_fail))
  unfolding run_nist nist_results
  run_nist-short deliver bytes fair =
      let bits = to_bits bytes in
      let rows = fan_in-concat deliver (nist_results fl bytes) fair in
      (
        λ h.
            ap (λ ms. get_elem? ms 3) rows
            ∙ p_metric-nan "Longest Run of Ones" (nist_longest_run_of_ones fl bits)
                (nist_longest_run_of_ones-short bits (omega (arith, h, length-to_bits bytes))),
        λ h.
            ap (λ ms. get_elem? ms 4) rows
            ∙ p_metric-nan "Approximate Entropy (m=5)" (nist_approximate_entropy fl bits 5)
                (nist_approximate_entropy-short bits (omega (arith, h, length-to_bits bytes))),
      )
