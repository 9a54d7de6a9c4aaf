-- ===== src/Audit/Validators/Walk.antt =====
-- The cumulative sums test of nist.go.
pub mod Reversed
use quantum_entropy_service.Common.{
  ℕ, zero, suc, ◌+◌, ◌-◌, ◌*◌, ◌/◌, leb, Bool, ◌==◌, List, [], ◌∷◌, length, if◌then◌else◌, ℤ, pos,
  negsuc, ◌+ℤ◌, ◌-ℤ◌, ltb_ℤ, quot, pos_part, neg_part, sub_ℕ,
}
use quantum_entropy_service.Keymanager.Model.{Bytes}
use quantum_entropy_service.Audit.Floats.{Floats, float}
use quantum_entropy_service.Audit.Validators.Gamma.{normal_cdf}

pub record Excursion : Type 0 where
  pub sup : ℤ
  pub inf : ℤ
  pub sum : ℤ

abbrev pub step_of : ℕ → ℤ
step_of b = if b == 1 then pos 1 else negsuc 0

-- One round of the loop over the bits.
unfoldable pub walk_step : ℕ → Excursion → Excursion
unfolding ◌+ℤ◌
walk_step b e =
    let s = e.sum +ℤ step_of b in
    record {
      sup = if ltb_ℤ e.sup s then s else e.sup;
      inf = if ltb_ℤ s e.inf then s else e.inf;
      sum = s;
    }

unfoldable pub walk_from : Bytes → Excursion → Excursion
unfolding walk_step
walk_from [] e = e
walk_from (b ∷ bits) e = walk_from bits (walk_step b e)

unfoldable pub walk : Bytes → Excursion
unfolding walk_from
walk bits = walk_from bits (record { sup = pos 0; inf = pos 0; sum = pos 0 })

unfoldable pub max_int : ℤ → ℤ → ℤ
max_int a b = if ltb_ℤ b a then a else b

unfoldable pub z_forward : Excursion → ℤ
unfolding max_int ◌-ℤ◌
z_forward e = max_int e.sup (pos 0 -ℤ e.inf)

unfoldable pub z_reverse : Excursion → ℤ
unfolding max_int ◌-ℤ◌
z_reverse e = max_int (e.sup -ℤ e.sum) (e.sum -ℤ e.inf)

module _ (fl : Floats) where
  open fl use {F, lit, add, sub, mul, div, sqrt, lt}

  -- normalCDF((4*k+c)*z/sqrtN)
  abbrev at_bound : F → F → ℤ → F → F
  unfolding normal_cdf
  at_bound z root k c = normal_cdf fl (div (mul (add (mul (lit 4 0) (fl.of_int k)) c) z) root)

  -- The sum over k, from `k` on for a number of rounds, of the difference at c and at c'.
  unfoldable pub cdf_sum : (rounds : ℕ) → (z root : F) → ℤ → (c c' : F) → F → F
  unfolding normal_cdf ◌+ℤ◌
  cdf_sum zero z root k c c' total = total
  cdf_sum (suc rounds) z root k c c' total =
      cdf_sum rounds z root (k +ℤ pos 1) c c'
        (add total (sub (at_bound z root k c) (at_bound z root k c')))

  -- The rounds of `for k := lo; k <= hi; k++`.
  abbrev pub rounds_of : ℤ → ℤ → ℕ
  rounds_of lo hi = pos_part hi + neg_part lo + 1 - (neg_part hi + pos_part lo)

  abbrev sums_p : ℕ → ℕ → F
  unfolding cdf_sum
  sums_p n z =
      let nz = n / z in
      let root = sqrt (float fl n) in
      let hi = quot (sub_ℕ nz 1) 4 in
      let lo = quot (sub_ℕ 1 nz) 4 in
      let lo' = quot (sub_ℕ 0 (nz + 3)) 4 in
      let sum1 =
        cdf_sum (rounds_of lo hi) (float fl z) root lo (lit 1 0) (fl.of_int (negsuc 0)) (lit 0 0) in
      let sum2 = cdf_sum (rounds_of lo' hi) (float fl z) root lo' (lit 3 0) (lit 1 0) (lit 0 0) in
      add (sub (lit 1 0) sum1) sum2

  unfoldable pub cumulative_sums_p : ℕ → ℤ → F
  unfolding cdf_sum
  cumulative_sums_p n (negsuc z) = lit 0 0
  cumulative_sums_p n (pos zero) = lit 0 0
  cumulative_sums_p n (pos (suc z)) = sums_p n (suc z)

  abbrev pub not_below_zero : F → F
  not_below_zero p = if lt p (lit 0 0) then lit 0 0 else p

  unfoldable pub nist_cumulative_sums : Bytes → F × F
  unfolding walk z_forward z_reverse cumulative_sums_p
  nist_cumulative_sums [] = (lit 0 0, lit 0 0)
  nist_cumulative_sums (b ∷ bits) =
      let e = walk (b ∷ bits) in
      let n = length (b ∷ bits) in
      (
        not_below_zero (cumulative_sums_p n (z_forward e)),
        not_below_zero (cumulative_sums_p n (z_reverse e)),
      )
