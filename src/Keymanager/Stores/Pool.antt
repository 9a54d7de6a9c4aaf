-- ===== src/Keymanager/Stores/Pool.antt =====
-- What any entropy store guarantees: a record is handed out once, and none is lost.
use quantum_entropy_service.Common.{
  ℕ, zero, suc, ◌+◌, ◌≡◌, ◌≢◌, refl, sym, ap, subst, Bool, List, [], ◌∷◌, arith, ok, take, drop,
  filter, length, All, length-drop, length-take,
}
use quantum_entropy_service.Keymanager.Model.{QuantumData}
use quantum_entropy_service.Keymanager.Stores.{
  EntropyStore, IsEntropyStore, Consumes, Distinct, is_unused, unused, use_first,
}

-- What is left of the unused records is what follows the first `n`.
pub unused-use_first :
    (n : ℕ) (rows : List QuantumData) → unused (use_first n rows) ≡ drop n (unused rows)
unfolding use_first
unused-use_first zero rows = refl
unused-use_first (suc n) [] = refl
unused-use_first (suc n) (q ∷ rows) =
    ground (arith, unused-use_first (suc n) rows, unused-use_first n rows)

All-ne-use_first :
    (i n : ℕ) (rows : List QuantumData)
    → All (λ r. i ≢ r.id) rows
    → All (λ r. i ≢ r.id) (use_first n rows)
unfolding use_first
All-ne-use_first i zero rows h = h
All-ne-use_first i (suc n) [] h = h
All-ne-use_first i (suc n) (q ∷ rows) h =
    ground (arith, All-ne-use_first i (suc n) rows h.1, All-ne-use_first i n rows h.1)

pub Distinct-use_first :
    (n : ℕ) (rows : List QuantumData) → Distinct rows → Distinct (use_first n rows)
unfolding use_first
Distinct-use_first zero rows d = d
Distinct-use_first (suc n) [] d = d
Distinct-use_first (suc n) (q ∷ rows) d = ground (
  arith,
  Distinct-use_first (suc n) rows d.1,
  Distinct-use_first n rows d.1,
  All-ne-use_first q.id (suc n) rows d.0,
  All-ne-use_first q.id n rows d.0,
)

abbrev pub Apart : QuantumData → List QuantumData → Type 0
Apart q = All λ r. q.id ≢ r.id

pub Apart-filter :
    (q : QuantumData) (p : QuantumData → Bool) (rows : List QuantumData)
    → Apart q rows
    → Apart q (filter p rows)
Apart-filter q p [] h = h
Apart-filter q p (r ∷ rows) h = ground (arith, Apart-filter q p rows h.1)

Distinct-filter :
    (p : QuantumData → Bool) (rows : List QuantumData) → Distinct rows → Distinct (filter p rows)
Distinct-filter p [] d = d
Distinct-filter p (q ∷ rows) d =
    ground (arith, Distinct-filter p rows d.1, Apart-filter q p rows d.0)

pub Apart-take :
    (q : QuantumData) (n : ℕ) (rows : List QuantumData) → Apart q rows → Apart q (take n rows)
Apart-take q zero rows h = tt
Apart-take q (suc n) [] h = tt
Apart-take q (suc n) (r ∷ rows) h = (h.0, Apart-take q n rows h.1)

Apart-drop :
    (q : QuantumData) (n : ℕ) (rows : List QuantumData) → Apart q rows → Apart q (drop n rows)
Apart-drop q zero rows h = h
Apart-drop q (suc n) [] h = h
Apart-drop q (suc n) (r ∷ rows) h = Apart-drop q n rows h.1

take-drop-Apart :
    (n m : ℕ) (rows : List QuantumData)
    → Distinct rows
    → All (λ q. Apart q (take m (drop n rows))) (take n rows)
take-drop-Apart zero m rows d = tt
take-drop-Apart (suc n) m [] d = tt
take-drop-Apart (suc n) m (q ∷ rows) d =
    (Apart-take q m (drop n rows) (Apart-drop q n rows d.0), take-drop-Apart n m rows d.1)

module _ {S : Type 0} (store : EntropyStore S) (pool : S → List QuantumData)
    (laws : IsEntropyStore store pool) where
  pub consumed :
      (n : ℕ) (s s' : S) (records : List QuantumData)
      → Distinct (pool s)
      → store.consume_entropy n s ≡ (ok records, s')
      → Consumes n (pool s) (ok records) (pool s')
  consumed n s s' records d e =
      subst (λ c. Consumes n (pool s) c.0 (pool c.1)) e (laws.consumes n s d)

  -- A successful `ConsumeEntropy(n)` returns exactly n records, the pool has n unused records fewer
  -- than before, and IDs are still distinct.
  pub consume_entropy_conserves :
      (n : ℕ) (s s' : S) (records : List QuantumData)
      → Distinct (pool s)
      → store.consume_entropy n s ≡ (ok records, s')
      → (length records ≡ n)
        × (length (unused (pool s')) + n ≡ length (unused (pool s)))
        × Distinct (pool s')
  consume_entropy_conserves n s s' records d e =
      let (taken, exact, left) = consumed n s s' records d e in
      (
        exact,
        omega (
          arith,
          ap (λ rows. length (unused rows)) left,
          ap length (unused-use_first n (pool s)),
          length-drop n (unused (pool s)),
          ap length taken,
          length-take n (unused (pool s)),
        ),
        subst Distinct (sym left) (Distinct-use_first n (pool s) d),
      )

  -- No record is handed out twice: what a later successful `ConsumeEntropy` returns has other IDs
  -- than all that an earlier one returned.
  pub consume_entropy_disjoint :
      (n m : ℕ) (s s₁ s₂ : S) (records later : List QuantumData)
      → Distinct (pool s)
      → store.consume_entropy n s ≡ (ok records, s₁)
      → store.consume_entropy m s₁ ≡ (ok later, s₂)
      → All (λ q. Apart q later) records
  consume_entropy_disjoint n m s s₁ s₂ records later d e e' =
      let (taken, _, left) = consumed n s s₁ records d e in
      let distinct = (consume_entropy_conserves n s s₁ records d e).2 in
      let (taken', _, _) = consumed m s₁ s₂ later distinct e' in
      rw (taken, taken', left, unused-use_first n (pool s))
        (take-drop-Apart n m (unused (pool s)) (Distinct-filter is_unused (pool s) d))
