-- ===== src/Audit/Validators/Structure.antt =====
-- internal/audit/validators/structure.go.
use quantum_entropy_service.Common.{
  ℕ, zero, suc, ◌+◌, ◌-◌, ◌%◌, ltb, ◌==◌, ◌||◌, List, [], ◌∷◌, length, replicate, set, get_or, drop,
  if◌then◌else◌,
}
use quantum_entropy_service.Keymanager.Model.{Bytes}
use quantum_entropy_service.Audit.Floats.{Floats, float}
use quantum_entropy_service.Audit.Validators.{to_bits, count_ones}
use quantum_entropy_service.Audit.Validators.Nist.{changes}

-- `counts[i%8] += int(b)` for each bit
unfoldable pub count_positions : ℕ → Bytes → List ℕ → List ℕ
count_positions i [] counts = counts
count_positions i (b ∷ bits) counts =
    count_positions (suc i) bits (set counts (i % 8) (get_or counts (i % 8) 0 + b))

unfoldable pub position_counts : Bytes → List ℕ
unfolding to_bits count_positions
position_counts bytes = count_positions 0 (to_bits bytes) (replicate 8 0)

-- How many bits agree with the bit `lag` places on: over the bits and their shifted copy.
unfoldable pub agreements : (bits shifted : Bytes) → ℕ
agreements (a ∷ bits) (b ∷ shifted) =
    let rest = agreements bits shifted in if a == b then suc rest else rest
agreements _ _ = 0

-- What the loop over the lags has found.
pub record Lags (F : Type 0) : Type 0 where
  pub max_z : F
  pub out_of_range : ℕ
  pub worst_lag : ℕ

module _ (fl : Floats) where
  open fl use {F, lit, add, sub, mul, div, abs, sqrt, lt, le}

  unfoldable pub bias_max : F → List ℕ → F → F
  bias_max total [] max_z = max_z
  bias_max total (c ∷ counts) max_z =
      let p = div (float fl c) total in
      let z = mul (mul (abs (sub p (lit 5 1))) (lit 2 0)) (sqrt total) in
      bias_max total counts (if lt max_z z then z else max_z)

  unfoldable pub structure_bit_bias : Bytes → F
  unfolding position_counts bias_max
  structure_bit_bias [] = lit 0 0
  structure_bit_bias (b ∷ bytes) =
      bias_max (float fl (length (b ∷ bytes))) (position_counts (b ∷ bytes)) (lit 0 0)

  unfoldable pub lag_z : Bytes → ℕ → F
  unfolding agreements
  lag_z bits lag =
      let pairs = length bits - lag in
      let p = div (float fl (agreements bits (drop lag bits))) (float fl pairs) in
      mul (abs (sub (mul (lit 2 0) p) (lit 1 0))) (sqrt (float fl pairs))

  abbrev pub after_lag : ℕ → F → Lags F → Lags F
  after_lag lag z found = record {
    max_z = if lt found.max_z z then z else found.max_z;
    out_of_range = if lt (lit 2 0) z then suc found.out_of_range else found.out_of_range;
    worst_lag = if lt found.max_z z then lag else found.worst_lag;
  }

  -- `for lag := 1; lag <= maxLag && lag < n; lag++`, with the lags that are left.
  unfoldable pub try_lags : (left lag : ℕ) → Bytes → Lags F → Lags F
  unfolding lag_z
  try_lags zero lag bits found = found
  try_lags (suc left) lag bits found =
      let rest = try_lags left (suc lag) bits (after_lag lag (lag_z bits lag) found) in
      if ltb lag (length bits) then rest else found

  abbrev no_lags : Lags F
  no_lags = record { max_z = lit 0 0; out_of_range = 0; worst_lag = 0 }

  unfoldable pub structure_autocorrelation : Bytes → ℕ → Lags F
  unfolding to_bits try_lags
  structure_autocorrelation bytes max_lag =
      let bits = to_bits bytes in
      if ltb (length bits) 2 then no_lags else try_lags max_lag 1 bits no_lags

  -- `runs` of the source is a float that counts up from 1.0 by ones.
  abbrev runs_z : F → F → F → ℕ → F
  runs_z n ones zeros runs =
      let product = mul (mul (lit 2 0) ones) zeros in
      let expected = add (lit 1 0) (div product n) in
      let variance = div (mul product (sub product n)) (mul (mul n n) (sub n (lit 1 0))) in
      if fl.same ones (lit 0 0) || fl.same zeros (lit 0 0)
      then fl.inf
      else if le variance (lit 0 0)
      then fl.max_float64
      else div (abs (sub (float fl runs) expected)) (sqrt variance)

  unfoldable pub structure_runs_z : Bytes → F
  unfolding count_ones changes
  structure_runs_z [] = lit 0 0
  structure_runs_z (b ∷ bits) =
      let n = float fl (length (b ∷ bits)) in
      let ones = float fl (count_ones (b ∷ bits)) in
      runs_z n ones (sub n ones) (suc (changes (b ∷ bits)))

  unfoldable pub byte_sum : Bytes → F → F
  byte_sum [] total = total
  byte_sum (b ∷ bytes) total = byte_sum bytes (add total (float fl b))

  -- num, denX and denY over the pairs of neighbours.
  unfoldable pub products : F → Bytes → F × F × F → F × F × F
  products mean (a ∷ b ∷ bytes) (num, den_x, den_y) =
      let dx = sub (float fl a) mean in
      let dy = sub (float fl b) mean in
      products mean (b ∷ bytes) (add num (mul dx dy), add den_x (mul dx dx), add den_y (mul dy dy))
  products mean (a ∷ []) found = found
  products mean [] found = found

  abbrev correlation : ℕ → F × F × F → F × F
  correlation n (num, den_x, den_y) =
      let r = div num (sqrt (mul den_x den_y)) in
      if fl.same den_x (lit 0 0) || fl.same den_y (lit 0 0)
      then (lit 0 0, lit 0 0)
      else (r, mul (abs r) (sqrt (float fl n)))

  unfoldable pub structure_serial_correlation : Bytes → F × F
  unfolding byte_sum products
  structure_serial_correlation bytes =
      let n = length bytes in
      let mean = div (byte_sum bytes (lit 0 0)) (float fl n) in
      if ltb n 3
      then (lit 0 0, lit 0 0)
      else correlation n (products mean bytes (lit 0 0, lit 0 0, lit 0 0))
