-- ===== src/Audit/Suites/Ordered.antt =====
-- The suites under different orders of delivery.
use quantum_entropy_service.Common.{
  ◌≡◌, sym, ◌∙◌, List, [], ◌∷◌, String, str_eq, Option, none, some, Bool, true, false, All, concat,
  if◌then◌else◌,
}
use quantum_entropy_service.Keymanager.Model.{Bytes}
use quantum_entropy_service.Audit.Floats.{Floats}
use quantum_entropy_service.Audit.FanIn.{Delivered, run_fan_in-ordered}
use quantum_entropy_service.Audit.Suites.{Metric}
use quantum_entropy_service.Audit.Suites.Metrics.{
  Deliver, fan_in, run_basic, run_min_entropy, run_nist, run_structure, basic_results,
  min_entropy_results, nist_results, structure_results,
}
use quantum_entropy_service.Audit.Suites.Registry.{SuiteDef, registry, find_suite}

-- The channel delivers each closure's result once or more, and nothing else.
abbrev pub Fair : Deliver → Type 0
Fair deliver = (results : List (List Metric)) → Delivered results (deliver results)

pub fan_in-concat :
    (deliver : Deliver) (results : List (List Metric))
    → Fair deliver
    → fan_in deliver results ≡ concat results
unfolding fan_in
fan_in-concat deliver results fair = run_fan_in-ordered results (deliver results) (fair results)

-- The rows of a suite do not depend on the order of delivery.
abbrev pub OrderFree : SuiteDef → Type 0
OrderFree def =
    (d d' : Deliver) → Fair d → Fair d' → (bytes : Bytes) → def.run d bytes ≡ def.run d' bytes

module _ (fl : Floats) where
  same :
      (results : List (List Metric)) (d d' : Deliver)
      → Fair d
      → Fair d'
      → fan_in d results ≡ fan_in d' results
  same results d d' f f' = fan_in-concat d results f ∙ sym (fan_in-concat d' results f')

  pub registry-OrderFree : All OrderFree (registry fl)
  unfolding run_basic run_min_entropy run_nist run_structure
  registry-OrderFree = (
    λ d d' f f' bytes. same (basic_results fl bytes) d d' f f',
    (
      λ d d' f f' bytes. same (min_entropy_results fl bytes) d d' f f',
      (
        λ d d' f f' bytes. same (nist_results fl bytes) d d' f f',
        (λ d d' f f' bytes. same (structure_results fl bytes) d d' f f', tt),
      ),
    ),
  )

-- What holds of every suite holds of the one that is found.
abbrev pub Found : (P : SuiteDef → Type 0) → Option SuiteDef → Type 0
Found P none = Unit
Found P (some def) = P def

pub find_suite-Found :
    (P : SuiteDef → Type 0) (id : String) (defs : List SuiteDef)
    → All P defs
    → Found P (find_suite id defs)
unfolding find_suite
find_suite-Found P id [] h = tt
find_suite-Found P id (def ∷ defs) h = here (str_eq def.id id) h.0 (find_suite-Found P id defs h.1)
  where
    here :
        (t : Bool)
        → P def
        → Found P (find_suite id defs)
        → Found P (if t then some def else find_suite id defs)
    here true p q = p
    here false p q = q
