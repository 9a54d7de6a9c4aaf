-- ===== src/Keymanager/Stores/History.antt =====
-- How the table of entropy records may change: records are added at its end, and each may become used.
use quantum_entropy_service.Common.{
  ℕ, zero, suc, ◌≡◌, ◌≢◌, refl, sym, subst, String, ◌⊎◌, inl, inr, Bool, true, false, List, [], ◌∷◌,
  ◌++◌, Result, ok, err, All, ap, if◌then◌else◌,
}
use quantum_entropy_service.Keymanager.Model.{QuantumData, RsaKey}
use quantum_entropy_service.Keymanager.Stores.{
  EntropyStore, KeyStore, AreStores, Saves, Consumes, Reads, Distinct, mark_used, use_first,
}
use quantum_entropy_service.Keymanager.Stores.Pool.{Distinct-use_first}

-- A property of the tables that no operation on the stores breaks, whether it succeeds or fails.
pub record IsInvariant {S : Type 0} (store : EntropyStore S) (keys : KeyStore S) (P : S → Type 0)
    : Type 0 where
  pub saves : (q : QuantumData) (s : S) → P s → P (store.save_entropy q s).1
  pub consumes : (n : ℕ) (s : S) → P s → P (store.consume_entropy n s).1
  pub counts : (s : S) → P s → P (store.count_all_unused_entropy s).1
  pub finds : (source : String) (s : S) → P s → P (store.find_all_unused_by_source source s).1
  pub saves_key : (k : RsaKey) (s : S) → P s → P (keys.save_key k s).1
  pub lists_keys : (s : S) → P s → P (keys.find_all_keys s).1
  pub finds_key : (id : ℕ) (s : S) → P s → P (keys.find_key_by_id id s).1
  pub deletes_key : (id : ℕ) (s : S) → P s → P (keys.delete_key_by_id id s).1
  pub clears_keys : (s : S) → P s → P (keys.delete_all_keys s).1

-- A record is as it was, or it has become used.
abbrev pub Ages : QuantumData → QuantumData → Type 0
Ages q r = (r ≡ q) ⊎ (r ≡ mark_used q)

-- The records of a table are still there, in their order, and others may follow.
abbrev pub Extends : List QuantumData → List QuantumData → Type 0
Extends [] after = Unit {0}
Extends (q ∷ before) [] = ⊥
Extends (q ∷ before) (r ∷ after) = Ages q r × Extends before after

pub Extends-refl : (rows : List QuantumData) → Extends rows rows
Extends-refl [] = tt
Extends-refl (q ∷ rows) = (inl refl, Extends-refl rows)

Extends-append :
    (before after more : List QuantumData) → Extends before after → Extends before (after ++ more)
Extends-append [] after more h = tt
Extends-append (q ∷ before) [] more h = elim h [ ]
Extends-append (q ∷ before) (r ∷ after) more (a, h) = (a, Extends-append before after more h)

Ages-mark_used : (q r : QuantumData) → Ages q r → Ages q (mark_used r)
Ages-mark_used q r (inl e) = inr (ap mark_used e)
Ages-mark_used q r (inr e) = inr (ap mark_used e)

Extends-use_first :
    (n : ℕ) (before after : List QuantumData)
    → Extends before after
    → Extends before (use_first n after)
unfolding use_first
Extends-use_first zero before after h = h
Extends-use_first (suc n) [] after h = tt
Extends-use_first (suc n) (q ∷ before) [] h = elim h [ ]
Extends-use_first (suc n) (q ∷ before) (r ∷ after) (a, h) =
    go r.used (Extends-use_first (suc n) before after h) (Extends-use_first n before after h)
  where
    go :
        (b : Bool)
        → Extends before (use_first (suc n) after)
        → Extends before (use_first n after)
        → Extends
            (q ∷ before)
            (if b then r ∷ use_first (suc n) after else mark_used r ∷ use_first n after)
    go true x y = (a, x)
    go false x y = (Ages-mark_used q r a, y)

Distinct-snoc :
    (rows : List QuantumData) (q : QuantumData)
    → Distinct rows
    → All (λ r. r.id ≢ q.id) rows
    → Distinct (rows ++ q ∷ [])
Distinct-snoc [] q d a = (tt, tt)
Distinct-snoc (r ∷ rows) q (h, d) (e, a) = (others rows h, Distinct-snoc rows q d a)
  where
    others :
        (rows : List QuantumData)
        → All (λ s. r.id ≢ s.id) rows
        → All (λ s. r.id ≢ s.id) (rows ++ q ∷ [])
    others [] h = (e, tt)
    others (s ∷ rows) (i, h) = (i, others rows h)

-- IDs are distinct, and the records that were there at first are still there.
abbrev pub Lasts : List QuantumData → List QuantumData → Type 0
Lasts first rows = Distinct rows × Extends first rows

module _ (first : List QuantumData) where
  Saves-Lasts :
      (q : QuantumData) (rows after : List QuantumData) (r : Result QuantumData)
      → Saves q rows r after
      → Lasts first rows
      → Lasts first after
  Saves-Lasts q rows after (err e) h (d, x) = subst (Lasts first) (sym h) (d, x)
  Saves-Lasts q rows after (ok q') (e, same, fresh) (d, x) =
      subst (Lasts first) (sym e)
        (Distinct-snoc rows q' d fresh, Extends-append first rows (q' ∷ []) x)

  Consumes-Lasts :
      (n : ℕ) (rows after : List QuantumData) (r : Result (List QuantumData))
      → Consumes n rows r after
      → Lasts first rows
      → Lasts first after
  Consumes-Lasts n rows after (err e) h l = subst (Lasts first) (sym h) l
  Consumes-Lasts n rows after (ok records) (taken, exact, e) (d, x) =
      subst (Lasts first) (sym e) (Distinct-use_first n rows d, Extends-use_first n first rows x)

  Reads-Lasts :
      {A : Type 0} (a : A) (rows after : List QuantumData) (r : Result A)
      → Reads a rows r after
      → Lasts first rows
      → Lasts first after
  Reads-Lasts a rows after (err e) h l = subst (Lasts first) (sym h) l
  Reads-Lasts a rows after (ok x) (same, e) l = subst (Lasts first) (sym e) l

  -- No operation on the stores breaks it.
  pub Lasts-IsInvariant :
      {S : Type 0} (store : EntropyStore S) (keys : KeyStore S) (pool : S → List QuantumData)
      (vault : S → List RsaKey)
      → AreStores store keys pool vault
      → IsInvariant store keys (λ s. Lasts first (pool s))
  Lasts-IsInvariant store keys pool vault stores = record {
    saves =
        λ q s h. Saves-Lasts q (pool s) _ (store.save_entropy q s).0 (stores.entropy.saves q s) h;
    consumes = λ n s h.
        Consumes-Lasts n (pool s) _ (store.consume_entropy n s).0 (stores.entropy.consumes n s h.0)
          h;
    counts = λ s h.
        Reads-Lasts _ (pool s) _ (store.count_all_unused_entropy s).0 (stores.entropy.counts s) h;
    finds = λ source s h.
        Reads-Lasts _ (pool s) _ (store.find_all_unused_by_source source s).0
          (stores.entropy.finds source s) h;
    saves_key = λ k s h. subst (Lasts first) (sym (stores.apart.pool-save_key k s)) h;
    lists_keys = λ s h. subst (Lasts first) (sym (stores.apart.pool-find_all_keys s)) h;
    finds_key = λ id s h. subst (Lasts first) (sym (stores.apart.pool-find_key_by_id id s)) h;
    deletes_key = λ id s h. subst (Lasts first) (sym (stores.apart.pool-delete_key_by_id id s)) h;
    clears_keys = λ s h. subst (Lasts first) (sym (stores.apart.pool-delete_all_keys s)) h;
  }
