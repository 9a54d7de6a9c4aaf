-- ===== src/Audit/Validators/Gamma.antt =====
-- internal/audit/validators/igamc.go: the incomplete gamma function and the normal distribution, as the
-- source computes them. The loops run at most the source's 100000 rounds.
use quantum_entropy_service.Common.{ℕ, zero, suc, ◌+◌, ◌||◌, if◌then◌else◌}
use quantum_entropy_service.Audit.Floats.{Floats, float}

module _ (fl : Floats) where
  open fl use {F, lit, add, sub, mul, div, neg, abs, exp, log, sqrt, erfc, lt, le}

  abbrev pub igamc_eps : F
  igamc_eps = lit 3 7

  abbrev pub igamc_fp_min : F
  igamc_fp_min = lit 1 300

  -- The series for P(a, x): the sum when the loop ends.
  unfoldable pub series : (rounds : ℕ) → (x ap total del : F) → F
  series zero x ap total del = total
  series (suc rounds) x ap total del =
      let ap' = add ap (lit 1 0) in
      let del' = mul del (div x ap') in
      let total' = add total del' in
      let rest = series rounds x ap' total' del' in
      if lt (abs del') (mul (abs total') igamc_eps) then total' else rest

  abbrev not_tiny : F → F
  not_tiny v = if lt (abs v) igamc_fp_min then igamc_fp_min else v

  -- The continued fraction for Q(a, x): `h` when the loop ends.
  unfoldable pub fraction : (rounds i : ℕ) → (a b c d h : F) → F
  fraction zero i a b c d h = h
  fraction (suc rounds) i a b c d h =
      let an = mul (neg (float fl i)) (sub (float fl i) a) in
      let b' = add b (lit 2 0) in
      let d' = div (lit 1 0) (not_tiny (add (mul an d) b')) in
      let c' = not_tiny (add b' (div an c)) in
      let del = mul d' c' in
      let h' = mul h del in
      let rest = fraction rounds (i + 1) a b' c' d' h' in
      if lt (abs (sub del (lit 1 0))) igamc_eps then h' else rest

  -- exp(-x + a * log(x) - gln)
  abbrev factor : F → F → F
  factor a x = exp (sub (add (neg x) (mul a (log x))) (fl.lgamma a))

  unfoldable pub igamc : (a x : F) → F
  unfolding series fraction
  igamc a x =
      if lt x (lit 0 0) || le a (lit 0 0)
      then fl.nan
      else if fl.same x (lit 0 0)
      then lit 1 0
      else if lt x (add a (lit 1 0))
      then (let first = div (lit 1 0) a in
          sub (lit 1 0) (mul (series 100000 x a first first) (factor a x)))
      else (let b = sub (add x (lit 1 0)) a in
          let d = div (lit 1 0) b in
          mul (factor a x) (fraction 99999 1 a b (div (lit 1 0) igamc_fp_min) d d))

  unfoldable pub normal_cdf : F → F
  normal_cdf x = mul (lit 5 1) (erfc (div (neg x) (sqrt (lit 2 0))))
