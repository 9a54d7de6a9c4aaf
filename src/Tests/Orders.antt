-- ===== src/Tests/Orders.antt =====
-- Two orders in which a channel may deliver.
use quantum_entropy_service.Common.{
  ℕ, zero, suc, ◌+◌, ◌<◌, ◌≡◌, ap, ◌∙◌, arith, All, All-append, List, [], ◌∷◌, ◌++◌, length,
  get_elem?, some, inl, inr, subst,
}
use quantum_entropy_service.Audit.FanIn.{Arrives}
use quantum_entropy_service.Audit.Suites.{Metric}
use quantum_entropy_service.Audit.Suites.Metrics.{Deliver}
use quantum_entropy_service.Audit.Suites.Ordered.{Fair}

abbrev pub in_order : ℕ → Deliver
in_order i [] = []
in_order i (items ∷ results) = (i, items) ∷ in_order (suc i) results

abbrev pub backwards : ℕ → Deliver
backwards i [] = []
backwards i (items ∷ results) = backwards (suc i) results ++ (i, items) ∷ []

Right : List (List Metric) → ℕ × List Metric → Type 0
Right results a = get_elem? results a.0 ≡ some a.1

-- `rest` stands in `results` from place i on.
Within : (results rest : List (List Metric)) → ℕ → Type 0
Within results rest i = (k : ℕ) → get_elem? results (i + k) ≡ get_elem? rest k

Within-tail :
    (results rest : List (List Metric)) (items : List Metric) (i : ℕ)
    → Within results (items ∷ rest) i
    → Within results rest (suc i)
unfolding Within
Within-tail results rest items i h k = ap (get_elem? results) (omega arith) ∙ h (suc k)

Right-head :
    (results rest : List (List Metric)) (items : List Metric) (i : ℕ)
    → Within results (items ∷ rest) i
    → Right results (i, items)
unfolding Within Right
Right-head results rest items i h = ap (get_elem? results) (omega arith) ∙ h 0

in_order-genuine :
    (results rest : List (List Metric)) (i : ℕ)
    → Within results rest i
    → All (Right results) (in_order i rest)
in_order-genuine results [] i h = tt
in_order-genuine results (items ∷ rest) i h = (
  Right-head results rest items i h,
  in_order-genuine results rest (suc i) (Within-tail results rest items i h),
)

backwards-genuine :
    (results rest : List (List Metric)) (i : ℕ)
    → Within results rest i
    → All (Right results) (backwards i rest)
backwards-genuine results [] i h = tt
backwards-genuine results (items ∷ rest) i h =
    All-append (Right results) (backwards (suc i) rest) ((i, items) ∷ [])
      (backwards-genuine results rest (suc i) (Within-tail results rest items i h))
      (Right-head results rest items i h, tt)

in_order_complete :
    (rest : List (List Metric)) (i k : ℕ) → k < length rest → Arrives (i + k) (in_order i rest)
in_order_complete [] i k h = ground (arith, h)
in_order_complete (items ∷ rest) i zero h = inl (omega arith)
in_order_complete (items ∷ rest) i (suc k) h = inr (
    subst (λ j. Arrives j (in_order (suc i) rest)) (omega arith)
      (in_order_complete rest (suc i) k (omega (arith, h))))

Arrives-left : (j : ℕ) (xs ys : List (ℕ × List Metric)) → Arrives j xs → Arrives j (xs ++ ys)
Arrives-left j [] ys a = elim a [ ]
Arrives-left j (x ∷ xs) ys (inl e) = inl e
Arrives-left j (x ∷ xs) ys (inr a) = inr (Arrives-left j xs ys a)

Arrives-right : (j : ℕ) (xs ys : List (ℕ × List Metric)) → Arrives j ys → Arrives j (xs ++ ys)
Arrives-right j [] ys a = a
Arrives-right j (x ∷ xs) ys a = inr (Arrives-right j xs ys a)

backwards_complete :
    (rest : List (List Metric)) (i k : ℕ) → k < length rest → Arrives (i + k) (backwards i rest)
backwards_complete [] i k h = ground (arith, h)
backwards_complete (items ∷ rest) i zero h =
    Arrives-right (i + 0) (backwards (suc i) rest) ((i, items) ∷ []) (inl (omega arith))
backwards_complete (items ∷ rest) i (suc k) h =
    Arrives-left (i + suc k) (backwards (suc i) rest) ((i, items) ∷ []) (
      subst (λ j. Arrives j (backwards (suc i) rest)) (omega arith)
        (backwards_complete rest (suc i) k (omega (arith, h))))

pub in_order-Fair : Fair (in_order 0)
unfolding Right Within
in_order-Fair results = record {
  genuine = in_order-genuine results results 0 (λ k. ap (get_elem? results) (omega arith));
  complete = λ i h.
      subst (λ j. Arrives j (in_order 0 results)) (omega arith) (in_order_complete results 0 i h);
}

pub backwards-Fair : Fair (backwards 0)
unfolding Right Within
backwards-Fair results = record {
  genuine = backwards-genuine results results 0 (λ k. ap (get_elem? results) (omega arith));
  complete = λ i h.
      subst (λ j. Arrives j (backwards 0 results)) (omega arith) (backwards_complete results 0 i h);
}
