-- ===== src/Audit/Validators/Basic.antt =====
-- internal/audit/validators/validators.go and minentropy.go: the statistics over bytes.
pub mod Distinct
use quantum_entropy_service.Common.{
  ℕ, zero, suc, ◌+◌, ◌-◌, ltb, Bool, true, false, ◌==◌, ◌||◌, List, [], ◌∷◌, Option, none, some,
  length, replicate, set, get_or, if◌then◌else◌, map,
}
use quantum_entropy_service.Keymanager.Model.{Bytes}
use quantum_entropy_service.Audit.Floats.{Floats, float}
use quantum_entropy_service.Audit.Validators.{tally, to_bits, count_ones, most_common_value}

-- CountRepetitions
unfoldable pub count_repetitions : Bytes → ℕ
count_repetitions [] = 0
count_repetitions (a ∷ []) = 0
count_repetitions (a ∷ b ∷ bytes) =
    let rest = count_repetitions (b ∷ bytes) in if a == b then suc rest else rest

-- The keys of the map `seen`.
abbrev pub contains : ℕ → List ℕ → Bool
contains v [] = false
contains v (x ∷ xs) = v == x || contains v xs

unfoldable pub see_all : Bytes → List ℕ → List ℕ
see_all [] seen = seen
see_all (b ∷ bytes) seen = see_all bytes (if contains b seen then seen else b ∷ seen)

-- DistinctByteValues
unfoldable pub distinct_byte_values : Bytes → ℕ
unfolding see_all
distinct_byte_values bytes = length (see_all bytes [])

module _ (fl : Floats) where
  open fl use {F, lit, add, sub, mul, div, neg, log2, pow, lt, le}

  abbrev frequencies : Bytes → List ℕ
  unfolding tally
  frequencies bytes = tally bytes (replicate 256 0)

  -- One frequency: `if f > 0 { p := ...; entropy -= p * math.Log2(p) }`
  abbrev entropy_term : F → ℕ → F → F
  entropy_term n zero entropy = entropy
  entropy_term n (suc f) entropy = let p = div (float fl (suc f)) n in sub entropy (mul p (log2 p))

  unfoldable pub entropy_sum : F → List ℕ → F → F
  entropy_sum n [] entropy = entropy
  entropy_sum n (f ∷ freq) entropy = entropy_sum n freq (entropy_term n f entropy)

  unfoldable pub calculate_shannon_entropy : Bytes → F
  unfolding entropy_sum tally
  calculate_shannon_entropy [] = lit 0 0
  calculate_shannon_entropy (b ∷ bytes) =
      entropy_sum (float fl (length (b ∷ bytes))) (frequencies (b ∷ bytes)) (lit 0 0)

  abbrev chi_term : F → F → ℕ → F
  chi_term expected chi f =
      let diff = sub (float fl f) expected in add chi (div (mul diff diff) expected)

  unfoldable pub chi_sum : F → List ℕ → F → F
  chi_sum expected [] chi = chi
  chi_sum expected (f ∷ freq) chi = chi_sum expected freq (chi_term expected chi f)

  unfoldable pub calculate_chi_square : Bytes → F
  unfolding chi_sum tally
  calculate_chi_square [] = lit 0 0
  calculate_chi_square (b ∷ bytes) =
      chi_sum (div (float fl (length (b ∷ bytes))) (lit 256 0)) (frequencies (b ∷ bytes)) (lit 0 0)

  abbrev in_circle : ℕ → ℕ → Bool
  in_circle a b =
      let x = div (float fl a) (lit 256 0) in
      let y = div (float fl b) (lit 256 0) in le (add (mul x x) (mul y y)) (lit 1 0)

  -- The points inside the circle and all points, over pairs of bytes.
  unfoldable pub count_points : Bytes → ℕ × ℕ → ℕ × ℕ
  count_points (a ∷ b ∷ bytes) (inside, total) =
      count_points bytes (if in_circle a b then suc inside else inside, suc total)
  count_points (a ∷ []) counts = counts
  count_points [] counts = counts

  abbrev pi_of : ℕ × ℕ → F
  pi_of (inside, zero) = lit 0 0
  pi_of (inside, suc total) = div (mul (lit 4 0) (float fl inside)) (float fl (suc total))

  unfoldable pub estimate_pi_monte_carlo : Bytes → F
  unfolding count_points
  estimate_pi_monte_carlo bytes =
      if ltb (length bytes) 2 then lit 0 0 else pi_of (count_points bytes (0, 0))

  abbrev ratio_of : Option ℕ → ℕ → F
  ratio_of none n = lit 1 0
  ratio_of (some size) n = div (float fl size) (float fl n)

  unfoldable pub calculate_compression_ratio : Bytes → F
  calculate_compression_ratio [] = lit 0 0
  calculate_compression_ratio (b ∷ bytes) = ratio_of (fl.gzip_size (b ∷ bytes)) (length (b ∷ bytes))

  unfoldable pub estimate_min_entropy_mcv : Bytes → F
  unfolding most_common_value
  estimate_min_entropy_mcv [] = lit 0 0
  estimate_min_entropy_mcv (b ∷ bytes) =
      neg (log2 (div (float fl (most_common_value (b ∷ bytes))) (float fl (length (b ∷ bytes)))))

  unfoldable pub estimate_min_entropy_bits : Bytes → F
  unfolding to_bits count_ones
  estimate_min_entropy_bits [] = lit 0 0
  estimate_min_entropy_bits (b ∷ bytes) =
      let bits = to_bits (b ∷ bytes) in
      let p = div (float fl (count_ones bits)) (float fl (length bits)) in
      neg (log2 (if lt p (lit 5 1) then sub (lit 1 0) p else p))

  unfoldable pub expected_distinct_values : ℕ → F
  expected_distinct_values n =
      mul (lit 256 0) (sub (lit 1 0) (pow (div (lit 255 0) (lit 256 0)) (float fl n)))
