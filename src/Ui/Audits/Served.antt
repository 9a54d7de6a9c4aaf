-- ===== src/Ui/Audits/Served.antt =====
-- What the handlers of the audit and of the lab answer to any query.
use quantum_entropy_service.Common.{
  ℕ, ℤ, pos, ◌≤◌, ◌<◌, ◌≡◌, ◌⊎◌, inl, inr, refl, ap, ◌∙◌, String, str_eq, List, [], ◌∷◌, map,
  Result, ok, err, length, length-map, if◌then◌else◌, arith,
}
use quantum_entropy_service.Audit.Floats.{Floats}
use quantum_entropy_service.Audit.Samples.{Ran, returned, panicked, Sources}
use quantum_entropy_service.Audit.Suites.{
  Verdict, verdict_pass, verdict_warn, verdict_fail, Metric, SourceResult,
}
use quantum_entropy_service.Audit.Runs.{
  World, Service, AuditReport, AuditMetrics, SuiteResult, run_full_audit, err_no_quantum_data,
  err_unknown_suite,
}
use quantum_entropy_service.Audit.Runs.Returns.{Returns, Gives, Sized, run_full_audit-Returns}
use quantum_entropy_service.Ui.{
  AuditCard, LabMeta, LabRow, LabSource, Page, page, warning, audit_grid, lab_grid, lab_table,
}
use quantum_entropy_service.Ui.Audits.{
  no_data_yet, warning_of, size_or_default, audit_page, audit_card, cards, run_audit,
}

-- A grid of three cards, of a sample of at least one byte and at most n.
abbrev pub GridOf : ℕ → Page → Type 0
GridOf n p =
    (size : ℕ) × (cards : List AuditCard) × (p ≡ page 200 (audit_grid size cards))
    × (0 < size)
    × (size ≤ n)
    × (length cards ≡ 3)

-- The word of a verdict, which is the class of its mark, and its label.
abbrev ShowsVerdict : Verdict → (word label : String) → Type 0
ShowsVerdict verdict_pass word label = (word ≡ "pass") × (label ≡ "PASS")
ShowsVerdict verdict_warn word label = (word ≡ "warn") × (label ≡ "WARN")
ShowsVerdict verdict_fail word label = (word ≡ "fail") × (label ≡ "FAIL")

-- One row for each metric, in their order, with all that the metric says.
abbrev RowsOf : List Metric → List LabRow → Type 0
RowsOf [] [] = Unit {0}
RowsOf [] (row ∷ rows) = ⊥
RowsOf (m ∷ ms) [] = ⊥
RowsOf (m ∷ ms) (row ∷ rows) =
    (row.name ≡ m.name)
    × (row.value ≡ m.value)
    × (row.reference ≡ m.reference)
    × ShowsVerdict m.verdict row.verdict row.label
    × RowsOf ms rows

-- The rows of each source, in their order, under its name.
abbrev SourcesOf : List SourceResult → List LabSource → Type 0
SourcesOf [] [] = Unit {0}
SourcesOf [] (s ∷ ss) = ⊥
SourcesOf (sr ∷ srs) [] = ⊥
SourcesOf (sr ∷ srs) (s ∷ ss) = (s.source ≡ sr.source) × RowsOf sr.metrics s.rows × SourcesOf srs ss

-- The page of a result: its head and its three sources, as a grid for the suite "basic", else a table.
abbrev pub LabOf : String → ℕ → SuiteResult → Page → Type 0
LabOf suite n r p =
    let head : LabMeta = record {
      name = r.name;
      sample_size = r.sample_size;
      min_note = r.min_note;
      description = r.description;
    } in
    (sources : List LabSource) × (p
      ≡ page 200 (
          if str_eq suite "basic"
          then lab_grid head r.indicative sources
          else lab_table head r.indicative sources))
    × SourcesOf r.results sources
    × (length sources ≡ 3)
    × (0 < r.sample_size)
    × (r.sample_size ≤ n)

-- The page says that there is no data.
abbrev pub SaysNoData : Page → Type 0
SaysNoData p = p ≡ page 200 (warning no_data_yet)

module _ {D B R : Type 0} (fl : Floats) (src : Sources R) (svc : Service D B) where
  cards-GridOf :
      (n size : ℕ) (results : List (AuditMetrics fl.F))
      → (0 < size) × (size ≤ n) × (length results ≡ 3)
      → GridOf n (cards fl src svc size results)
  cards-GridOf n size [] (_, _, three) = ground (arith, three)
  cards-GridOf n size (r ∷ results) (some_bytes, few, three) = (
    size,
    map (audit_card fl src svc) (r ∷ results),
    refl,
    some_bytes,
    few,
    length-map (r ∷ results) (audit_card fl src svc) ∙ three,
  )

  audit_page-Served :
      (n : ℕ) (r : Ran (Result (AuditReport fl.F)))
      → Returns
          (Gives
            (Sized (λ a. a.sample_size) (λ a. length a.results) n)
            (λ e. e ≡ err_no_quantum_data))
          r
      → Returns (λ p. SaysNoData p ⊎ GridOf n p) (audit_page fl src svc r)
  audit_page-Served n panicked h = h
  audit_page-Served n (returned (ok a)) h = inr (cards-GridOf n a.sample_size a.results h)
  audit_page-Served n (returned (err e)) h = inl (ap warning_of h)

  -- Whatever the query's size is, the page of the audit is served: it says that there is no data, or
  -- shows three sources for a sample of at least one byte and at most the size (8192 for a size that
  -- is not positive).
  pub run_audit-Served :
      (size : ℤ) (w : World D B R)
      → Returns
          (λ p. SaysNoData p ⊎ GridOf (size_or_default size) p)
          (run_audit fl src svc size w).0
  unfolding run_audit
  run_audit-Served size w =
      let n = size_or_default size in
      audit_page-Served n (run_full_audit fl src svc (pos n) w).0
        (run_full_audit-Returns fl src svc n w)

-- The page by what the service returned.
abbrev pub ServedOf : String → ℕ → Ran (Result SuiteResult) → Ran Page → Type 0
ServedOf suite n r panicked = ⊥
ServedOf suite n panicked (returned p) = ⊥
ServedOf suite n (returned (err e)) (returned p) =
    ((e ≡ err_no_quantum_data) × SaysNoData p)
    ⊎ ((e ≡ err_unknown_suite) × (p ≡ page 200 (warning "unknown suite")))
ServedOf suite n (returned (ok r)) (returned p) = LabOf suite n r p
