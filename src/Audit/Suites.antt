-- ===== src/Audit/Suites.antt =====
-- internal/audit/suites.go: verdicts, metrics and the registry of the suites.
pub mod Verdicts
pub mod Metrics
pub mod Registry
pub mod Ordered
pub mod Short
use quantum_entropy_service.Common.{Bool, ◌&&◌, List, String, if◌then◌else◌}
use quantum_entropy_service.Audit.Floats.{Floats}

pub data Verdict : Type 0 where
  verdict_pass verdict_warn verdict_fail : Verdict

pub record Metric : Type 0 where
  pub name : String
  pub value : String
  pub reference : String
  pub verdict : Verdict

pub record SourceResult : Type 0 where
  pub source : String
  pub metrics : List Metric

module _ (fl : Floats) where
  open fl use {F, lit, lt, le}

  unfoldable pub band_verdict : (v ok_low ok_high warn_low warn_high : F) → Verdict
  band_verdict v ok_low ok_high warn_low warn_high =
      if le ok_low v && le v ok_high
      then verdict_pass
      else if le warn_low v && le v warn_high
      then verdict_warn
      else verdict_fail

  unfoldable pub high_verdict : (v ok_threshold warn_threshold : F) → Verdict
  high_verdict v ok_threshold warn_threshold =
      if le ok_threshold v
      then verdict_pass
      else if le warn_threshold v
      then verdict_warn
      else verdict_fail

  unfoldable pub low_verdict : (v ok_threshold warn_threshold : F) → Verdict
  low_verdict v ok_threshold warn_threshold =
      if le v ok_threshold
      then verdict_pass
      else if le v warn_threshold
      then verdict_warn
      else verdict_fail

  unfoldable pub z_verdict : F → Verdict
  z_verdict z =
      if lt z (lit 2 0) then verdict_pass else if lt z (lit 3 0) then verdict_warn else verdict_fail

  unfoldable pub p_verdict : F → Verdict
  p_verdict p =
      if le (lit 1 2) p then verdict_pass else if le (lit 1 3) p then verdict_warn else verdict_fail

  unfoldable pub fmt_p : F → String
  fmt_p p =
      if fl.is_nan p
      then "n/a"
      else if lt (lit 0 0) p && lt p (lit 1 4)
      then fl.scientific 3 p
      else fl.fixed 6 p
