-- ===== src/Audit/Floats.antt =====
-- float64 and what the audits use of the packages math, fmt and compress/gzip, as parameters. Of the
-- arithmetic nothing is assumed; of comparisons only what IEEE 754 says of NaN, and that they are
-- transitive.
use quantum_entropy_service.Common.{ℕ, ◌≡◌, Bool, true, false, String, List, Option, ℤ, pos}
use quantum_entropy_service.Keymanager.Model.{Bytes}

-- A literal is a mantissa and the number of its decimal places: 7.9 is `lit 79 1`.
pub record Floats : Type 1 where
  pub F : Type 0
  pub of_int : ℤ → F
  pub lit : (mantissa places : ℕ) → F
  pub add : F → F → F
  pub sub : F → F → F
  pub mul : F → F → F
  pub div : F → F → F
  pub neg : F → F
  pub abs : F → F
  pub sqrt : F → F
  pub erfc : F → F
  pub log : F → F
  pub log2 : F → F
  pub exp : F → F
  pub lgamma : F → F
  pub pow : F → F → F
  -- math.Round
  pub round : F → F
  -- math.Min
  pub lesser : F → F → F
  -- int(x), which drops the fraction
  pub truncated : F → ℤ
  pub ln2 : F
  pub inf : F
  pub max_float64 : F
  pub nan : F
  pub lt : F → F → Bool
  pub le : F → F → Bool
  pub is_nan : F → Bool
  -- x == y
  pub same : F → F → Bool
  -- "%.nf" and "%.ne"
  pub fixed : ℕ → F → String
  pub scientific : ℕ → F → String
  -- "%d"
  pub decimal : ℕ → String
  -- the length of the compressed data, if the compressor could be made
  pub gzip_size : Bytes → Option ℕ
  -- the values of a map in the order in which `range` visits them
  pub visit : List ℕ → List ℕ

pub record IsFloats (fl : Floats) : Type 0 where
  pub lt-nan : (x : fl.F) → fl.lt fl.nan x ≡ false
  pub nan-lt : (x : fl.F) → fl.lt x fl.nan ≡ false
  pub le-nan : (x : fl.F) → fl.le fl.nan x ≡ false
  pub nan-le : (x : fl.F) → fl.le x fl.nan ≡ false
  pub is_nan-nan : fl.is_nan fl.nan ≡ true
  pub le_trans : (x y z : fl.F) → fl.le x y ≡ true → fl.le y z ≡ true → fl.le x z ≡ true
  pub lt_of_le_of_lt : (x y z : fl.F) → fl.le x y ≡ true → fl.lt y z ≡ true → fl.lt x z ≡ true

module _ (fl : Floats) where
  -- float64(n)
  abbrev pub float : ℕ → fl.F
  float n = fl.of_int (pos n)
