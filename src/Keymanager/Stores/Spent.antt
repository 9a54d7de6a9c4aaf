-- ===== src/Keymanager/Stores/Spent.antt =====
-- Records that are used, and what may still be handed out.
use quantum_entropy_service.Common.{
  ℕ, zero, suc, ◌≡◌, ◌≢◌, refl, sym, ap, subst, ◌∙◌, ◌⊎◌, inl, inr, Bool, true, false, List, [],
  ◌∷◌, All, take, not, arith, if◌then◌else◌,
}
use quantum_entropy_service.Keymanager.Model.{QuantumData}
use quantum_entropy_service.Keymanager.Stores.{Distinct, unused, mark_used, use_first, is_unused}
use quantum_entropy_service.Keymanager.Stores.Pool.{Apart, Apart-filter, Apart-take}
use quantum_entropy_service.Keymanager.Stores.History.{Ages, Extends}

-- A used record of the table has this ID.
abbrev pub HasUsed : ℕ → List QuantumData → Type 0
HasUsed id [] = ⊥
HasUsed id (r ∷ rows) = ((r.id ≡ id) × (r.used ≡ true)) ⊎ HasUsed id rows

Ages-used :
    (id : ℕ) (q r : QuantumData)
    → Ages q r
    → (q.id ≡ id) × (q.used ≡ true)
    → (r.id ≡ id) × (r.used ≡ true)
Ages-used id q r (inl e) (i, u) = (ap (λ s. s.id) e ∙ i, ap (λ s. s.used) e ∙ u)
Ages-used id q r (inr e) (i, u) = (ap (λ s. s.id) e ∙ i, ap (λ s. s.used) e)

-- A used record stays used as the table grows.
pub HasUsed-Extends :
    (id : ℕ) (before after : List QuantumData)
    → Extends before after
    → HasUsed id before
    → HasUsed id after
HasUsed-Extends id [] after x h = elim h [ ]
HasUsed-Extends id (q ∷ before) [] x h = elim x [ ]
HasUsed-Extends id (q ∷ before) (r ∷ after) (a, x) (inl h) = inl (Ages-used id q r a h)
HasUsed-Extends id (q ∷ before) (r ∷ after) (a, x) (inr h) =
    inr (HasUsed-Extends id before after x h)

other_id :
    (id : ℕ) (q : QuantumData) (rows : List QuantumData)
    → Apart q rows
    → HasUsed id rows
    → id ≢ q.id
other_id id q [] a h = elim h [ ]
other_id id q (r ∷ rows) (n, a) (inl (i, u)) = λ e. n (sym (i ∙ e))
other_id id q (r ∷ rows) (n, a) (inr h) = other_id id q rows a h

renamed-Apart :
    (id : ℕ) (q : QuantumData) (rows : List QuantumData)
    → q.id ≡ id
    → Apart q rows
    → All (λ r. id ≢ r.id) rows
renamed-Apart id q rows e a = subst (λ i. All (λ r. i ≢ r.id) rows) e a

-- Where IDs are distinct, no unused record has the ID of a used one.
pub HasUsed-Apart :
    (id : ℕ) (rows : List QuantumData)
    → Distinct rows
    → HasUsed id rows
    → All (λ r. id ≢ r.id) (unused rows)
HasUsed-Apart id [] d h = tt
HasUsed-Apart id (r ∷ rows) (a, d) h = go r.used refl h (HasUsed-Apart id rows d)
  where
    go :
        (b : Bool)
        → r.used ≡ b
        → HasUsed id (r ∷ rows)
        → (HasUsed id rows → All (λ s. id ≢ s.id) (unused rows))
        → All (λ s. id ≢ s.id) (if not b then r ∷ unused rows else unused rows)
    go true e (inl (i, u)) rest =
        renamed-Apart id r (unused rows) i (Apart-filter r is_unused rows a)
    go true e (inr h) rest = rest h
    go false e (inl (i, u)) rest = ground (arith, e, u)
    go false e (inr h) rest = (other_id id r rows a h, rest h)

All-inr :
    (P Q : QuantumData → Type 0) (rows : List QuantumData) → All Q rows → All (λ q. P q ⊎ Q q) rows
All-inr P Q [] h = tt
All-inr P Q (q ∷ rows) (h, hs) = (inr h, All-inr P Q rows hs)

-- Each of the records that are handed out is used afterwards.
pub HasUsed-use_first :
    (n : ℕ) (rows : List QuantumData)
    → All (λ q. HasUsed q.id (use_first n rows)) (take n (unused rows))
unfolding use_first
HasUsed-use_first zero rows = tt
HasUsed-use_first (suc n) [] = tt
HasUsed-use_first (suc n) (q ∷ rows) =
    go q.used (HasUsed-use_first (suc n) rows) (HasUsed-use_first n rows)
  where
    go :
        (b : Bool)
        → All (λ r. HasUsed r.id (use_first (suc n) rows)) (take (suc n) (unused rows))
        → All (λ r. HasUsed r.id (use_first n rows)) (take n (unused rows))
        → All
            (λ r.
              HasUsed r.id
                (if b then q ∷ use_first (suc n) rows else mark_used q ∷ use_first n rows))
            (take (suc n) (if not b then q ∷ unused rows else unused rows))
    go true x y =
        All-inr (λ r. (q.id ≡ r.id) × (q.used ≡ true)) (λ r. HasUsed r.id (use_first (suc n) rows))
          (take (suc n) (unused rows)) x
    go false x y = (
      inl (refl, refl),
      All-inr (λ r. (q.id ≡ r.id) × (true ≡ true)) (λ r. HasUsed r.id (use_first n rows))
          (take n (unused rows)) y,
    )

-- What is handed out of a table that extends one in which these records are used has other IDs.
pub HasUsed-later :
    (m : ℕ) (records before after : List QuantumData)
    → Distinct after
    → Extends before after
    → All (λ q. HasUsed q.id before) records
    → All (λ q. Apart q (take m (unused after))) records
HasUsed-later m [] before after d x h = tt
HasUsed-later m (q ∷ records) before after d x (u, h) = (
  Apart-take q m (unused after)
      (HasUsed-Apart q.id after d (HasUsed-Extends q.id before after x u)),
  HasUsed-later m records before after d x h,
)
