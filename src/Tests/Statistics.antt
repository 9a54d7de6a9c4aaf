-- ===== src/Tests/Statistics.antt =====
-- The validators, the verdicts and the suites on small samples.
use quantum_entropy_service.Common.{◌*◌, ◌≤◌, ◌≡◌, arith, [], ◌∷◌, length, get_or, replicate}
use mathlib.Core.List.{reverse}
use quantum_entropy_service.Keymanager.Model.{Bytes}
use quantum_entropy_service.Audit.Validators.Nist.{tier_of, longest_run_bins}
use quantum_entropy_service.Audit.Validators.Nist.Bins.{class_count, get_or-longest_run_bins}
use quantum_entropy_service.Audit.Validators.Patterns.{key_from, count_patterns, extended}
use quantum_entropy_service.Audit.Validators.Patterns.Counts.{lookup, places, lookup-pattern}
use quantum_entropy_service.Audit.Validators.Walk.{nist_cumulative_sums}
use quantum_entropy_service.Audit.Validators.Walk.Reversed.{nist_cumulative_sums-reverse}
use quantum_entropy_service.Tests.Numbers.{numbers}

abbrev bits : Bytes
bits = 1 ∷ 0 ∷ 1 ∷ 1 ∷ []

nist_cumulative_sums-reverse_example :
    ((nist_cumulative_sums numbers bits).1 ≡ (nist_cumulative_sums numbers (reverse bits)).0)
    × ((nist_cumulative_sums numbers bits).0 ≡ (nist_cumulative_sums numbers (reverse bits)).1)
nist_cumulative_sums-reverse_example = nist_cumulative_sums-reverse numbers bits

abbrev ones : Bytes
ones = replicate 128 1

get_or-longest_run_bins_example :
    (get_or (longest_run_bins ones) 3 0
      ≡ class_count
          (length ones)
          3
          (tier_of (length ones)).number_of_blocks
          (tier_of (length ones)).m
          ones)
    × ((tier_of (length ones)).number_of_blocks * (tier_of (length ones)).m ≤ length ones)
get_or-longest_run_bins_example = get_or-longest_run_bins ones 3 (omega arith)

lookup-pattern_example :
    lookup (key_from 0 (1 ∷ 0 ∷ [])) (count_patterns 4 2 (extended bits 2) [])
    ≡ places 4 (1 ∷ 0 ∷ []) (extended bits 2)
lookup-pattern_example =
    lookup-pattern bits (1 ∷ 0 ∷ []) (omega arith) (omega arith) (omega arith) (omega arith)
