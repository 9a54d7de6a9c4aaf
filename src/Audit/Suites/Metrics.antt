-- ===== src/Audit/Suites/Metrics.antt =====
-- runBasic, runMinEntropy, runNIST and runStructure of suites.go. Each closure's result is a value; the
-- order in which the channel delivers the results is a parameter.
use quantum_entropy_service.Common.{
  ℕ, ltb, String, str_append, List, [], ◌∷◌, length, if◌then◌else◌, sub_ℕ,
}
use quantum_entropy_service.Keymanager.Model.{Bytes}
use quantum_entropy_service.Audit.Floats.{Floats, float}
use quantum_entropy_service.Audit.FanIn.{run_fan_in}
use quantum_entropy_service.Audit.Suites.{
  Verdict, Metric, band_verdict, high_verdict, low_verdict, z_verdict, p_verdict, fmt_p,
}
use quantum_entropy_service.Audit.Validators.{to_bits, most_common_value}
use quantum_entropy_service.Audit.Validators.Basic.{
  count_repetitions, distinct_byte_values, calculate_shannon_entropy, calculate_chi_square,
  estimate_pi_monte_carlo, calculate_compression_ratio, estimate_min_entropy_mcv,
  estimate_min_entropy_bits, expected_distinct_values,
}
use quantum_entropy_service.Audit.Validators.Nist.{
  nist_monobit, nist_block_frequency, nist_runs, nist_longest_run_of_ones,
}
use quantum_entropy_service.Audit.Validators.Patterns.{nist_approximate_entropy, nist_serial}
use quantum_entropy_service.Audit.Validators.Walk.{nist_cumulative_sums}
use quantum_entropy_service.Audit.Validators.Structure.{
  structure_bit_bias, structure_autocorrelation, structure_runs_z, structure_serial_correlation,
}

-- What the channel delivers, of the closures' results.
abbrev pub Deliver : Type 0
Deliver = List (List Metric) → List (ℕ × List Metric)

unfoldable pub fan_in : Deliver → List (List Metric) → List Metric
unfolding run_fan_in
fan_in deliver results = run_fan_in (length results) (deliver results)

abbrev pub metric : (name value reference : String) → Verdict → Metric
metric name value reference verdict = record {
  name = name;
  value = value;
  reference = reference;
  verdict = verdict;
}

module _ (fl : Floats) where
  open fl use {F, lit, div, lt, fixed, decimal}

  -- `ratio := 1.0; if expected > 0 { ratio = float64(found) / expected }`
  abbrev ratio_to : ℕ → F → F
  ratio_to found expected = if lt (lit 0 0) expected then div (float fl found) expected else lit 1 0

  unfoldable pub basic_results : Bytes → List (List Metric)
  unfolding calculate_shannon_entropy calculate_chi_square estimate_pi_monte_carlo
      calculate_compression_ratio count_repetitions band_verdict high_verdict low_verdict
  basic_results bytes =
      let shannon = calculate_shannon_entropy fl bytes in
      let chi = calculate_chi_square fl bytes in
      let pi = estimate_pi_monte_carlo fl bytes in
      let comp = calculate_compression_ratio fl bytes in
      let reps = count_repetitions bytes in
      let expected = div (fl.of_int (sub_ℕ (length bytes) 1)) (lit 256 0) in
      let ratio = ratio_to reps expected in
      (metric "Shannon Entropy" (str_append (fixed 3 shannon) " bits/byte") "8.0 (uniform)"
          (high_verdict fl shannon (lit 79 1) (lit 75 1))
        ∷ [])
      ∷ (metric "Chi-Square" (fixed 2 chi) "~255"
            (band_verdict fl chi (lit 200 0) (lit 310 0) (lit 170 0) (lit 350 0))
          ∷ [])
      ∷ (metric "Pi Estimate (Monte Carlo)" (fixed 4 pi) "3.1416"
            (band_verdict fl pi (lit 312 2) (lit 316 2) (lit 306 2) (lit 322 2))
          ∷ [])
      ∷ (metric "Compression Ratio" (fixed 4 comp) "~1.0 (incompressible)"
            (low_verdict fl comp (lit 108 2) (lit 120 2))
          ∷ [])
      ∷ (metric "Repetitions"
            (str_append (decimal reps) (str_append " (" (str_append (fixed 1 ratio) "x expected)")))
            "~n/256" (low_verdict fl ratio (lit 2 0) (lit 4 0))
          ∷ [])
      ∷ []

  unfoldable pub run_basic : Deliver → Bytes → List Metric
  unfolding fan_in basic_results
  run_basic deliver bytes = fan_in deliver (basic_results bytes)

  unfoldable pub min_entropy_results : Bytes → List (List Metric)
  unfolding estimate_min_entropy_mcv estimate_min_entropy_bits most_common_value
      distinct_byte_values expected_distinct_values high_verdict low_verdict
  min_entropy_results bytes =
      let min_entropy = estimate_min_entropy_mcv fl bytes in
      let min_entropy_bits = estimate_min_entropy_bits fl bytes in
      let mcv = most_common_value bytes in
      let mcvp = div (float fl mcv) (float fl (length bytes)) in
      let distinct = distinct_byte_values bytes in
      let expected_distinct = expected_distinct_values fl (length bytes) in
      let distinct_ratio = ratio_to distinct expected_distinct in
      (metric "Min-Entropy (8-bit MCV)" (str_append (fixed 4 min_entropy) " bits/byte") "8.0 ideal"
          (high_verdict fl min_entropy (lit 79 1) (lit 70 1))
        ∷ [])
      ∷ (metric "Min-Entropy (bit-level)" (str_append (fixed 4 min_entropy_bits) " bits/bit")
            "1.0 ideal" (high_verdict fl min_entropy_bits (lit 99 2) (lit 95 2))
          ∷ [])
      ∷ (metric "Most Common Value"
            (str_append (decimal mcv) (str_append " (" (str_append (fixed 4 mcvp) ")"))) "~n/256"
            (low_verdict fl mcvp (lit 42 4) (lit 80 4))
          ∷ [])
      ∷ (metric "Distinct byte values"
            (str_append (decimal distinct)
              (str_append " / " (str_append (fixed 1 expected_distinct) " expected")))
            "256(1-e^(-n/256))" (high_verdict fl distinct_ratio (lit 99 2) (lit 95 2))
          ∷ [])
      ∷ []

  unfoldable pub run_min_entropy : Deliver → Bytes → List Metric
  unfolding fan_in min_entropy_results
  run_min_entropy deliver bytes = fan_in deliver (min_entropy_results bytes)

  -- A row for a p-value.
  abbrev pub p_metric : String → F → Metric
  p_metric name p = metric name (fmt_p fl p) "p >= 0.01" (p_verdict fl p)

  unfoldable pub nist_results : Bytes → List (List Metric)
  unfolding to_bits nist_monobit nist_block_frequency nist_runs nist_longest_run_of_ones
      nist_approximate_entropy nist_serial nist_cumulative_sums fmt_p p_verdict
  nist_results bytes =
      let bits = to_bits bytes in
      let block_m = if ltb (length bits) 128 then 8 else 128 in
      let (p1, p2, serial_m) = nist_serial fl bits in
      let (cum_fwd, cum_rev) = nist_cumulative_sums fl bits in
      (p_metric "Monobit (Frequency)" (nist_monobit fl bits) ∷ [])
      ∷ (p_metric (str_append "Block Frequency (M=" (str_append (decimal block_m) ")"))
            (nist_block_frequency fl bits block_m)
          ∷ [])
      ∷ (p_metric "Runs" (nist_runs fl bits) ∷ [])
      ∷ (p_metric "Longest Run of Ones" (nist_longest_run_of_ones fl bits) ∷ [])
      ∷ (p_metric "Approximate Entropy (m=5)" (nist_approximate_entropy fl bits 5) ∷ [])
      ∷ (p_metric (str_append "Serial (m=" (str_append (decimal serial_m) ", p1)")) p1
          ∷ p_metric (str_append "Serial (m=" (str_append (decimal serial_m) ", p2)")) p2
          ∷ [])
      ∷ (p_metric "Cumulative Sums (forward)" cum_fwd
          ∷ p_metric "Cumulative Sums (reverse)" cum_rev
          ∷ [])
      ∷ []

  unfoldable pub run_nist : Deliver → Bytes → List Metric
  unfolding fan_in nist_results
  run_nist deliver bytes = fan_in deliver (nist_results bytes)

  unfoldable pub structure_results : Bytes → List (List Metric)
  unfolding to_bits structure_bit_bias structure_autocorrelation structure_runs_z
      structure_serial_correlation z_verdict low_verdict
  structure_results bytes =
      let bit_bias = structure_bit_bias fl bytes in
      let lags = structure_autocorrelation fl bytes 16 in
      let runs_z = structure_runs_z fl (to_bits bytes) in
      let (r, r_z) = structure_serial_correlation fl bytes in
      (metric "Bit bias (max |z| over 8 positions)" (fixed 3 bit_bias) "|z| < 3"
          (z_verdict fl bit_bias)
        ∷ [])
      ∷ (metric
            (str_append "Autocorrelation lags 1-16 (max |z| @lag "
              (str_append (decimal lags.worst_lag) ")"))
            (fixed 3 lags.max_z) "|z| < 2 ok, >3 fail" (z_verdict fl lags.max_z)
          ∷ metric "Autocorrelation lags with |z| > 2" (decimal lags.out_of_range) "0 ideal"
              (low_verdict fl (float fl lags.out_of_range) (lit 0 0) (lit 1 0))
          ∷ [])
      ∷ (metric "Runs z-score" (fixed 3 runs_z) "|z| < 3" (z_verdict fl runs_z) ∷ [])
      ∷ (metric "Serial correlation (bytes)"
            (str_append "r="
              (str_append (fixed 4 r) (str_append " (z=" (str_append (fixed 3 r_z) ")"))))
            "|z| < 3" (z_verdict fl r_z)
          ∷ [])
      ∷ []

  unfoldable pub run_structure : Deliver → Bytes → List Metric
  unfolding fan_in structure_results
  run_structure deliver bytes = fan_in deliver (structure_results bytes)
