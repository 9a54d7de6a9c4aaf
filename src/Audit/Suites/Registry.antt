-- ===== src/Audit/Suites/Registry.antt =====
-- suiteDef and registry of suites.go.
use quantum_entropy_service.Common.{
  ℕ, String, str_eq, List, [], ◌∷◌, Option, none, some, if◌then◌else◌,
}
use quantum_entropy_service.Keymanager.Model.{Bytes}
use quantum_entropy_service.Audit.Floats.{Floats}
use quantum_entropy_service.Audit.Suites.{Metric}
use quantum_entropy_service.Audit.Suites.Metrics.{
  Deliver, run_basic, run_min_entropy, run_nist, run_structure,
}

pub record SuiteDef : Type 0 where
  pub id : String
  pub name : String
  pub description : String
  pub min_note : String
  pub min_bytes : ℕ
  pub run : Deliver → Bytes → List Metric

module _ (fl : Floats) where
  abbrev pub registry : List SuiteDef
  unfolding run_basic run_min_entropy run_nist run_structure
  registry =
      record {
        id = "basic";
        name = "Basic";
        description = "Global statistical metrics (existing suite) with automatic verdicts.";
        min_note = "1–16 KB is enough.";
        min_bytes = 1024;
        run = run_basic fl;
      }
      ∷ record {
        id = "min-entropy";
        name = "Min-Entropy";
        description =
            "NIST SP 800-90B most-common-value min-entropy estimates (8-bit and bit-level).";
        min_note = "Best with >= 1M samples; below that it is INDICATIVE.";
        min_bytes = 1048576;
        run = run_min_entropy fl;
      }
      ∷ record {
        id = "nist";
        name = "NIST SP 800-22";
        description = "Practical subset of NIST SP 800-22 tests (p-values, alpha 0.01).";
        min_note = "Best with >= 125 KB (1M bits); below that it is INDICATIVE.";
        min_bytes = 131072;
        run = run_nist fl;
      }
      ∷ record {
        id = "structure";
        name = "Structure";
        description =
            "Order/correlation analysis: bit bias, autocorrelation, runs and serial correlation.";
        min_note = "Recommended >= 64 KB.";
        min_bytes = 65536;
        run = run_structure fl;
      }
      ∷ []

-- `registry()[i].id == suiteID`, the first that fits.
unfoldable pub find_suite : String → List SuiteDef → Option SuiteDef
find_suite id [] = none
find_suite id (def ∷ defs) = if str_eq def.id id then some def else find_suite id defs
