-- ===== src/Audit/Suites/Verdicts.antt =====
-- What the verdicts say of NaN, and how they move with the value.
use quantum_entropy_service.Common.{ℕ, max, ◌≤◌, ◌≡◌, true, arith}
use quantum_entropy_service.Audit.Floats.{Floats, IsFloats}
use quantum_entropy_service.Audit.Suites.{
  Verdict, verdict_pass, verdict_warn, verdict_fail, band_verdict, high_verdict, low_verdict,
  z_verdict, p_verdict, fmt_p,
}

-- How bad a verdict is.
abbrev pub severity : Verdict → ℕ
severity verdict_pass = 0
severity verdict_warn = 1
severity verdict_fail = 2

module _ (fl : Floats) (laws : IsFloats fl) where
  open fl use {F, le, nan}

  -- Of NaN every verdict is "fail", and a p-value that is NaN is shown as "n/a".
  pub verdicts-nan :
      (a b c d : F)
      → (band_verdict fl nan a b c d ≡ verdict_fail)
        × (high_verdict fl nan a b ≡ verdict_fail)
        × (low_verdict fl nan a b ≡ verdict_fail)
        × (z_verdict fl nan ≡ verdict_fail)
        × (p_verdict fl nan ≡ verdict_fail)
        × (fmt_p fl nan ≡ "n/a")
  unfolding band_verdict high_verdict low_verdict z_verdict p_verdict fmt_p
  verdicts-nan a b c d = (
    ground (arith, laws.nan-le a, laws.nan-le c),
    ground (arith, laws.nan-le a, laws.nan-le b),
    ground (arith, laws.le-nan a, laws.le-nan b),
    ground (arith, laws.lt-nan (fl.lit 2 0), laws.lt-nan (fl.lit 3 0)),
    ground (arith, laws.nan-le (fl.lit 1 2), laws.nan-le (fl.lit 1 3)),
    ground (arith, laws.is_nan-nan),
  )

  -- With a value v that is at most w: the verdict on w by a test for at least, or as a p-value, is no
  -- worse than that on v, and the verdict on v by a test for at most, or as a z-score, is no worse
  -- than that on w.
  pub verdicts-monotone :
      (v w ok_threshold warn_threshold : F)
      → le v w ≡ true
      → (severity (high_verdict fl w ok_threshold warn_threshold)
          ≤ severity (high_verdict fl v ok_threshold warn_threshold))
        × (severity (p_verdict fl w) ≤ severity (p_verdict fl v))
        × (severity (low_verdict fl v ok_threshold warn_threshold)
            ≤ severity (low_verdict fl w ok_threshold warn_threshold))
        × (severity (z_verdict fl v) ≤ severity (z_verdict fl w))
  unfolding high_verdict p_verdict low_verdict z_verdict
  verdicts-monotone v w a b h =
      let below = laws.lt_of_le_of_lt v w in
      (
        ground (arith, laws.le_trans a v w, laws.le_trans b v w, h),
        ground (arith, laws.le_trans (fl.lit 1 2) v w, laws.le_trans (fl.lit 1 3) v w, h),
        ground (arith, laws.le_trans v w a, laws.le_trans v w b, h),
        ground (arith, below (fl.lit 2 0), below (fl.lit 3 0), h),
      )

  -- With a band to pass that lies within the band to warn, a value between two others gets a verdict no worse than the worse of theirs.
  pub band_verdict-convex :
      (u v w ok_low ok_high warn_low warn_high : F)
      → le warn_low ok_low ≡ true
      → le ok_high warn_high ≡ true
      → le u v ≡ true
      → le v w ≡ true
      → severity (band_verdict fl v ok_low ok_high warn_low warn_high)
        ≤ max
            (severity (band_verdict fl u ok_low ok_high warn_low warn_high))
            (severity (band_verdict fl w ok_low ok_high warn_low warn_high))
  unfolding band_verdict
  band_verdict-convex u v w a b c d l m h k = ground (
    arith,
    l,
    m,
    h,
    k,
    laws.le_trans a u v,
    laws.le_trans c u v,
    laws.le_trans v w b,
    laws.le_trans v w d,
    laws.le_trans c a u,
    laws.le_trans w b d,
  )
