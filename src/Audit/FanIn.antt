-- ===== src/Audit/FanIn.antt =====
-- runFanIn (internal/audit/suites.go): results arrive in any order and are put back by index.
use quantum_entropy_service.Common.{
  ℕ, zero, suc, ◌<◌, ◌≡◌, ◌⊎◌, inl, inr, refl, sym, ap, ◌∙◌, List, [], ◌∷◌, some, length, get_elem?,
  set, concat, replicate, length-replicate, length-set, All, arith,
}

module _ {Metric : Type 0} where
  -- The collector's loop over what is received: `groups[im.idx] = im.items`.
  unfoldable pub receive_all : List (ℕ × List Metric) → List (List Metric) → List (List Metric)
  receive_all [] groups = groups
  receive_all ((i, items) ∷ arrivals) groups = receive_all arrivals (set groups i items)

  -- runFanIn, of the number of closures and what the channel delivers.
  unfoldable pub run_fan_in : (closures : ℕ) → List (ℕ × List Metric) → List Metric
  unfolding receive_all
  run_fan_in closures arrivals = concat (receive_all arrivals (replicate closures []))

  abbrev pub Arrives : ℕ → List (ℕ × List Metric) → Type 0
  Arrives i [] = ⊥
  Arrives i (a ∷ arrivals) = (a.0 ≡ i) ⊎ Arrives i arrivals

  -- Each closure's result arrives, with its index, and nothing else does.
  pub record Delivered (results : List (List Metric)) (arrivals : List (ℕ × List Metric))
      : Type 0 where
    pub genuine : All (λ a. get_elem? results a.0 ≡ some a.1) arrivals
    pub complete : (i : ℕ) → i < length results → Arrives i arrivals

  get_elem?-set_same :
      (xs : List (List Metric)) (i : ℕ) (v : List Metric)
      → i < length xs
      → get_elem? (set xs i v) i ≡ some v
  get_elem?-set_same [] i v h = ground arith
  get_elem?-set_same (x ∷ xs) zero v h = refl
  get_elem?-set_same (x ∷ xs) (suc i) v h = get_elem?-set_same xs i v (omega arith)

  get_elem?-set_cases :
      (xs : List (List Metric)) (i j : ℕ) (v : List Metric)
      → (i ≡ j) ⊎ (get_elem? (set xs i v) j ≡ get_elem? xs j)
  get_elem?-set_cases [] i j v = inr refl
  get_elem?-set_cases (x ∷ xs) zero zero v = inl refl
  get_elem?-set_cases (x ∷ xs) zero (suc j) v = inr refl
  get_elem?-set_cases (x ∷ xs) (suc i) zero v = inr refl
  get_elem?-set_cases (x ∷ xs) (suc i) (suc j) v = elim (get_elem?-set_cases xs i j v) [
    | inl e ↦ inl (ap suc e)
    | inr e ↦ inr e
  ]

  -- A place that is right stays right, and one whose result is still to come becomes right.
  receive_all-right :
      (results groups : List (List Metric)) (arrivals : List (ℕ × List Metric)) (i : ℕ)
      → length groups ≡ length results
      → i < length results
      → All (λ a. get_elem? results a.0 ≡ some a.1) arrivals
      → Arrives i arrivals ⊎ (get_elem? groups i ≡ get_elem? results i)
      → get_elem? (receive_all arrivals groups) i ≡ get_elem? results i
  unfolding receive_all
  receive_all-right results groups [] i l h g (inl a) = elim a [ ]
  receive_all-right results groups [] i l h g (inr e) = e
  receive_all-right results groups ((j, items) ∷ arrivals) i l h g c =
      receive_all-right results (set groups j items) arrivals i (length-set groups j items ∙ l) h
        g.1 (next c)
    where
      arrived : j ≡ i → get_elem? (set groups j items) i ≡ get_elem? results i
      arrived e =
          ap (λ k. get_elem? (set groups k items) i) e
          ∙ get_elem?-set_same groups i items (omega (arith, l, h))
          ∙ sym g.0
          ∙ ap (get_elem? results) e

      next :
          Arrives i ((j, items) ∷ arrivals) ⊎ (get_elem? groups i ≡ get_elem? results i)
          → Arrives i arrivals ⊎ (get_elem? (set groups j items) i ≡ get_elem? results i)
      next (inl (inl e)) = inr (arrived e)
      next (inl (inr a)) = inl a
      next (inr e) = elim (get_elem?-set_cases groups j i items) [
        | inl k ↦ inr (arrived k)
        | inr k ↦ inr (k ∙ e)
      ]

  length-receive_all :
      (groups : List (List Metric)) (arrivals : List (ℕ × List Metric))
      → length (receive_all arrivals groups) ≡ length groups
  unfolding receive_all
  length-receive_all groups [] = refl
  length-receive_all groups ((i, items) ∷ arrivals) =
      length-receive_all (set groups i items) arrivals ∙ length-set groups i items

  same_elements :
      (xs ys : List (List Metric))
      → length xs ≡ length ys
      → ((i : ℕ) → i < length ys → get_elem? xs i ≡ get_elem? ys i)
      → xs ≡ ys
  same_elements [] [] l h = refl
  same_elements [] (y ∷ ys) l h = ground arith
  same_elements (x ∷ xs) [] l h = ground arith
  same_elements (x ∷ xs) (y ∷ ys) l h =
      cons (h 0 (omega arith))
        (same_elements xs ys (omega (arith, l)) (λ i k. h (suc i) (omega (arith, k))))
    where
      cons : some x ≡ some y → xs ≡ ys → x ∷ xs ≡ y ∷ ys
      cons p q = cc

  -- In whatever order the results arrive, runFanIn returns them in the order of the closures.
  pub run_fan_in-ordered :
      (results : List (List Metric)) (arrivals : List (ℕ × List Metric))
      → Delivered results arrivals
      → run_fan_in (length results) arrivals ≡ concat results
  unfolding run_fan_in
  run_fan_in-ordered results arrivals d =
      let empty = replicate (length results) [] in
      let same = length-replicate (length results) [] in
      ap concat (
        same_elements (receive_all arrivals empty) results
          (length-receive_all empty arrivals ∙ same)
          (λ i h.
            receive_all-right results empty arrivals i same h d.genuine (inl (d.complete i h))))
