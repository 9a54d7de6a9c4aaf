-- ===== src/Keymanager/Repository/Consume.antt =====
-- `ConsumeEntropy` marks the records that it returns, and no other: marking by ID is marking the
-- first unused records, because IDs are distinct.
use quantum_entropy_service.Common.{
  ℕ, zero, suc, ◌≡◌, ◌≢◌, refl, ap, List, [], ◌∷◌, arith, map, take, All,
}
use quantum_entropy_service.Keymanager.Model.{QuantumData}
use quantum_entropy_service.Keymanager.Stores.{unused, use_first, Distinct}
use quantum_entropy_service.Keymanager.Repository.{has_id}
use quantum_entropy_service.Keymanager.Repository.Laws.{mark_where}

abbrev pub ids_of : List QuantumData → List ℕ
ids_of = map λ q. q.id

mark_where-nil : (rows : List QuantumData) → mark_where (has_id []) rows ≡ rows
mark_where-nil [] = refl
mark_where-nil (q ∷ rows) = ap (λ t. q ∷ t) (mark_where-nil rows)

-- An ID that no row has makes no difference.
mark_where-cons :
    (i : ℕ) (ids : List ℕ) (rows : List QuantumData)
    → All (λ r. i ≢ r.id) rows
    → mark_where (has_id (i ∷ ids)) rows ≡ mark_where (has_id ids) rows
mark_where-cons i ids [] h = refl
mark_where-cons i ids (q ∷ rows) h = ground (arith, mark_where-cons i ids rows h.1, h.0)

pub mark_where-use_first :
    (n : ℕ) (rows : List QuantumData)
    → Distinct rows
    → mark_where (has_id (ids_of (take n (unused rows)))) rows ≡ use_first n rows
unfolding use_first
mark_where-use_first zero rows d = mark_where-nil rows
mark_where-use_first (suc n) [] d = refl
mark_where-use_first (suc n) (q ∷ rows) d = ground (
  arith,
  mark_where-use_first (suc n) rows d.1,
  mark_where-use_first n rows d.1,
  mark_where-cons q.id (ids_of (take n (unused rows))) rows d.0,
)
