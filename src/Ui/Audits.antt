-- ===== src/Ui/Audits.antt =====
-- The handlers of handler.go for the audit and the lab. A size or a seed is what strconv makes of the
-- query's parameter, which is 0 for none or for one that is not a number.
pub mod Served
use quantum_entropy_service.Common.{
  ℕ, ℤ, pos, zero, suc, negsuc, Bool, String, str_eq, List, [], ◌∷◌, map, if◌then◌else◌, GoError,
  error_text, Result, ok, err,
}
use quantum_entropy_service.Audit.Floats.{Floats}
use quantum_entropy_service.Audit.Samples.{Ran, returned, panicked, Sources}
use quantum_entropy_service.Audit.Suites.{
  Verdict, verdict_pass, verdict_warn, verdict_fail, Metric, SourceResult,
}
use quantum_entropy_service.Audit.Suites.Metrics.{Deliver}
use quantum_entropy_service.Audit.Runs.{
  World, Service, AuditMetrics, AuditReport, SuiteResult, err_no_quantum_data, run_full_audit,
  run_suites,
}
use quantum_entropy_service.Ui.{
  AuditCard, LabMeta, LabRow, LabSource, Fragment, Page, page, warning, audit_grid, lab_grid,
  lab_table,
}

abbrev pub no_data_yet : String
no_data_yet = "No quantum data in pool yet. Wait for pool to fill."

-- `if size <= 0 { size = 8192 }`
abbrev pub size_or_default : ℤ → ℕ
size_or_default (pos zero) = 8192
size_or_default (pos (suc n)) = suc n
size_or_default (negsuc n) = 8192

abbrev pub suite_or_default : String → String
suite_or_default suite = if str_eq suite "" then "basic" else suite

-- errors.Is(err, audit.ErrNoQuantumData)
abbrev is_no_data : GoError → Bool
is_no_data e = str_eq (error_text e) (error_text err_no_quantum_data)

abbrev pub warning_of : GoError → Page
warning_of e = page 200 (warning (if is_no_data e then no_data_yet else error_text e))

abbrev pub verdict_text : Verdict → String
verdict_text verdict_pass = "pass"
verdict_text verdict_warn = "warn"
verdict_text verdict_fail = "fail"

abbrev pub verdict_label : Verdict → String
verdict_label verdict_pass = "PASS"
verdict_label verdict_warn = "WARN"
verdict_label verdict_fail = "FAIL"

abbrev pub lab_row : Metric → LabRow
lab_row m = record {
  name = m.name;
  value = m.value;
  reference = m.reference;
  verdict = verdict_text m.verdict;
  label = verdict_label m.verdict;
}

abbrev pub lab_source : SourceResult → LabSource
lab_source sr = record { source = sr.source; rows = map lab_row sr.metrics }

abbrev pub lab_meta : SuiteResult → LabMeta
lab_meta r = record {
  name = r.name;
  sample_size = r.sample_size;
  min_note = r.min_note;
  description = r.description;
}

-- The grid does not show the references of the metrics.
abbrev pub lab_fragment : String → SuiteResult → Fragment
lab_fragment suite r =
    if str_eq suite "basic"
    then lab_grid (lab_meta r) r.indicative (map lab_source r.results)
    else lab_table (lab_meta r) r.indicative (map lab_source r.results)

abbrev no_results : List SourceResult → Page → Page
no_results [] p = page 200 (warning no_data_yet)
no_results (sr ∷ results) p = p

abbrev pub lab_page : String → Ran (Result SuiteResult) → Ran Page
lab_page suite panicked = panicked
lab_page suite (returned (err e)) = returned (warning_of e)
lab_page suite (returned (ok r)) = returned (no_results r.results (page 200 (lab_fragment suite r)))

module _ {D B R : Type 0} (fl : Floats) (src : Sources R) (svc : Service D B) where
  abbrev pub audit_card : AuditMetrics fl.F → AuditCard
  audit_card r = record {
    source = r.source;
    shannon_entropy = fl.fixed 3 r.shannon_entropy;
    chi_square = fl.fixed 2 r.chi_square;
    pi_estimate = fl.fixed 4 r.pi_estimate;
    compression_ratio = fl.fixed 4 r.compression_ratio;
    repetitions = r.repetitions;
  }

  abbrev cards : ℕ → List (AuditMetrics fl.F) → Page
  cards sample_size [] = page 200 (warning no_data_yet)
  cards sample_size (r ∷ results) = page 200 (audit_grid sample_size (map audit_card (r ∷ results)))

  abbrev pub audit_page : Ran (Result (AuditReport fl.F)) → Ran Page
  audit_page panicked = panicked
  audit_page (returned (err e)) = returned (warning_of e)
  audit_page (returned (ok report)) = returned (cards report.sample_size report.results)

  -- GET /ui/audit
  unfoldable pub run_audit : (size : ℤ) → World D B R → Ran Page × World D B R
  unfolding run_full_audit
  run_audit size w =
      let (r, w') = run_full_audit fl src svc (pos (size_or_default size)) w in (audit_page r, w')

  -- GET /ui/lab
  unfoldable pub run_lab :
      (orders : ℕ → Deliver) (suite : String) (size seed : ℤ) → World D B R → Ran Page × World D B R
  unfolding run_suites
  run_lab orders suite size seed w =
      let (r, w') =
        run_suites fl src svc orders (suite_or_default suite) (pos (size_or_default size)) seed w in
      (lab_page (suite_or_default suite) r, w')
