-- ===== src/Keymanager/Stores.antt =====
-- internal/keymanager/interfaces.go: the two interfaces, and what a client may rely on. The laws
-- speak of the table of entropy records that a world holds, in the order in which it is scanned.
pub mod Pool
pub mod History
pub mod Spent
use quantum_entropy_service.Common.{
  ℕ, zero, suc, ◌≡◌, ◌≢◌, Bool, true, not, ◌&&◌, str_eq, List, [], ◌∷◌, ◌++◌, Option, String, Done,
  Action, Result, ok, err, take, filter, length, All, if◌then◌else◌, ◌==◌, none, some,
}
use quantum_entropy_service.Keymanager.Model.{QuantumData, RsaKey}

pub record EntropyStore (S : Type 0) : Type 0 where
  pub save_entropy : QuantumData → Action S QuantumData
  pub consume_entropy : ℕ → Action S (List QuantumData)
  pub count_all_unused_entropy : Action S ℕ
  pub find_all_unused_by_source : String → Action S (List QuantumData)

pub record KeyStore (S : Type 0) : Type 0 where
  pub save_key : RsaKey → Action S RsaKey
  pub find_all_keys : Action S (List RsaKey)
  pub find_key_by_id : ℕ → Action S (Option RsaKey)
  pub delete_key_by_id : ℕ → Action S Done
  pub delete_all_keys : Action S Done

abbrev pub is_unused : QuantumData → Bool
is_unused q = not q.used

abbrev pub is_unused_of : String → QuantumData → Bool
is_unused_of source q = not q.used && str_eq q.source source

abbrev pub mark_used : QuantumData → QuantumData
mark_used q = record q { used = true }

abbrev pub unused : List QuantumData → List QuantumData
unused = filter is_unused

-- The first `n` unused records become used.
unfoldable pub use_first : ℕ → List QuantumData → List QuantumData
use_first zero rows = rows
use_first (suc n) [] = []
use_first (suc n) (q ∷ rows) =
    if q.used then q ∷ use_first (suc n) rows else mark_used q ∷ use_first n rows

-- No two records have one ID.
abbrev pub Distinct : List QuantumData → Type 0
Distinct [] = Unit {0}
Distinct (q ∷ rows) = All (λ r. q.id ≢ r.id) rows × Distinct rows

abbrev pub Saves : QuantumData → List QuantumData → Result QuantumData → List QuantumData → Type 0
Saves q before (ok q') after =
    (after ≡ before ++ q' ∷ []) × (q' ≡ record q { id = q'.id }) × All (λ r. r.id ≢ q'.id) before
Saves q before (err e) after = after ≡ before

abbrev pub Consumes : ℕ → List QuantumData → Result (List QuantumData) → List QuantumData → Type 0
Consumes n before (ok records) after =
    (records ≡ take n (unused before)) × (length records ≡ n) × (after ≡ use_first n before)
Consumes n before (err e) after = after ≡ before

abbrev pub Reads : {A : Type 0} → A → List QuantumData → Result A → List QuantumData → Type 0
Reads a before (ok a') after = (a' ≡ a) × (after ≡ before)
Reads a before (err e) after = after ≡ before

-- The laws of an `EntropyStore`, over the records that a world holds. A query may fail, and then it
-- has changed no record.
pub record IsEntropyStore {S : Type 0} (store : EntropyStore S) (pool : S → List QuantumData)
    : Type 0 where
  pub saves :
      (q : QuantumData) (s : S)
      → let (r, s') = store.save_entropy q s in Saves q (pool s) r (pool s')
  pub consumes :
      (n : ℕ) (s : S)
      → Distinct (pool s)
      → let (r, s') = store.consume_entropy n s in Consumes n (pool s) r (pool s')
  pub counts :
      (s : S)
      → let (r, s') = store.count_all_unused_entropy s in
        Reads (length (unused (pool s))) (pool s) r (pool s')
  pub finds :
      (source : String) (s : S)
      → let (r, s') = store.find_all_unused_by_source source s in
        Reads (filter (is_unused_of source) (pool s)) (pool s) r (pool s')

unfoldable pub find_key : ℕ → List RsaKey → Option RsaKey
find_key id [] = none
find_key id (k ∷ keys) = if k.id == id then some k else find_key id keys

unfoldable pub without_key : ℕ → List RsaKey → List RsaKey
without_key id [] = []
without_key id (k ∷ keys) = if k.id == id then without_key id keys else k ∷ without_key id keys

abbrev pub SavesKey : RsaKey → List RsaKey → Result RsaKey → List RsaKey → Type 0
SavesKey k before (ok k') after =
    (after ≡ before ++ k' ∷ [])
    × (k' ≡ record k { id = k'.id; created_at = k'.created_at })
    × (find_key k'.id before ≡ none)
SavesKey k before (err e) after = after ≡ before

abbrev pub Writes : List RsaKey → List RsaKey → Result Done → List RsaKey → Type 0
Writes target before (ok _) after = after ≡ target
Writes target before (err e) after = after ≡ before

abbrev pub ReadsKeys : {A : Type 0} → A → List RsaKey → Result A → List RsaKey → Type 0
ReadsKeys a before (ok a') after = (a' ≡ a) × (after ≡ before)
ReadsKeys a before (err e) after = after ≡ before

-- The laws of a `KeyStore`, over the keys that a world holds.
pub record IsKeyStore {S : Type 0} (store : KeyStore S) (vault : S → List RsaKey) : Type 0 where
  pub saves :
      (k : RsaKey) (s : S) → let (r, s') = store.save_key k s in SavesKey k (vault s) r (vault s')
  pub lists :
      (s : S) → let (r, s') = store.find_all_keys s in ReadsKeys (vault s) (vault s) r (vault s')
  pub finds :
      (id : ℕ) (s : S)
      → let (r, s') = store.find_key_by_id id s in
        ReadsKeys (find_key id (vault s)) (vault s) r (vault s')
  pub deletes :
      (id : ℕ) (s : S)
      → let (r, s') = store.delete_key_by_id id s in
        Writes (without_key id (vault s)) (vault s) r (vault s')
  pub clears : (s : S) → let (r, s') = store.delete_all_keys s in Writes [] (vault s) r (vault s')

-- The two tables are apart: what works on one leaves the other alone.
pub record AreApart {S : Type 0} (store : EntropyStore S) (keys : KeyStore S)
    (pool : S → List QuantumData) (vault : S → List RsaKey) : Type 0 where
  pub vault-save_entropy : (q : QuantumData) (s : S) → vault (store.save_entropy q s).1 ≡ vault s
  pub vault-consume_entropy : (n : ℕ) (s : S) → vault (store.consume_entropy n s).1 ≡ vault s
  pub vault-count : (s : S) → vault (store.count_all_unused_entropy s).1 ≡ vault s
  pub vault-find :
      (source : String) (s : S) → vault (store.find_all_unused_by_source source s).1 ≡ vault s
  pub pool-save_key : (k : RsaKey) (s : S) → pool (keys.save_key k s).1 ≡ pool s
  pub pool-find_all_keys : (s : S) → pool (keys.find_all_keys s).1 ≡ pool s
  pub pool-find_key_by_id : (id : ℕ) (s : S) → pool (keys.find_key_by_id id s).1 ≡ pool s
  pub pool-delete_key_by_id : (id : ℕ) (s : S) → pool (keys.delete_key_by_id id s).1 ≡ pool s
  pub pool-delete_all_keys : (s : S) → pool (keys.delete_all_keys s).1 ≡ pool s

-- All that a client of the two stores may rely on.
pub record AreStores {S : Type 0} (store : EntropyStore S) (keys : KeyStore S)
    (pool : S → List QuantumData) (vault : S → List RsaKey) : Type 0 where
  pub entropy : IsEntropyStore store pool
  pub vaulting : IsKeyStore keys vault
  pub apart : AreApart store keys pool vault
