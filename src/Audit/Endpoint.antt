-- ===== src/Audit/Endpoint.antt =====
-- RunAudit (internal/audit/handler.go): the endpoint of the full audit.
use quantum_entropy_service.Common.{
  ℤ, pos, String, str_eq, Option, none, some, error_text, Result, ok, err, if◌then◌else◌,
}
use quantum_entropy_service.Audit.Samples.{Ran, returned, panicked, Sources}
use quantum_entropy_service.Audit.Floats.{Floats}
use quantum_entropy_service.Audit.Runs.{
  World, Service, AuditReport, err_no_quantum_data, run_full_audit,
}

pub data Answer (F : Type 0) : Type 0 where
  -- 200 with the report, 200 with an empty one, 500
  reported : AuditReport F → Answer F
  empty_report : Answer F
  server_error : String → Answer F

-- The parameter `size`: absent, not a number, or a number (strconv.Atoi).
abbrev pub size_of_query : Option (Result ℤ) → ℤ
size_of_query none = pos 8192
size_of_query (some (err e)) = pos 8192
size_of_query (some (ok size)) = size

-- errors.Is(err, ErrNoQuantumData); the error is returned as it is.
abbrev pub answer_of : {F : Type 0} → Ran (Result (AuditReport F)) → Ran (Answer F)
answer_of panicked = panicked
answer_of (returned (ok report)) = returned (reported report)
answer_of (returned (err e)) = returned (
    if str_eq (error_text e) (error_text err_no_quantum_data)
    then empty_report
    else server_error (error_text e))

module _ {D B R : Type 0} (fl : Floats) (src : Sources R) (svc : Service D B) where
  unfoldable pub run_audit : Option (Result ℤ) → World D B R → Ran (Answer fl.F) × World D B R
  unfolding run_full_audit
  run_audit query w =
      let (r, w') = run_full_audit fl src svc (size_of_query query) w in (answer_of r, w')
