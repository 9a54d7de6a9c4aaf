-- ===== src/Keymanager/Repository/Laws.antt =====
-- What the repository's code relies on in GORM and SQLite: the effect of each call on the two
-- tables. A failed call has changed no row; a transaction whose body fails is rolled back.
use quantum_entropy_service.Common.{
  ℕ, ◌≡◌, Bool, true, List, [], Option, none, some, if◌then◌else◌, map, take, filter, length,
  GoError, Done, Action, Result, ok, err,
}
use quantum_entropy_service.Keymanager.Model.{QuantumData, RsaKey}
use quantum_entropy_service.Keymanager.Stores.{
  Saves, SavesKey, Reads, ReadsKeys, Writes, mark_used, find_key, without_key,
}
use quantum_entropy_service.Keymanager.Repository.{Gorm}

abbrev pub limited {ℓ} : {A : Type ℓ} → Option ℕ → List A → List A
limited none rows = rows
limited (some n) rows = take n rows

abbrev pub mark_where : (QuantumData → Bool) → List QuantumData → List QuantumData
mark_where p = map λ q. if p q then mark_used q else q

abbrev pub Updates :
    (QuantumData → Bool) → List QuantumData → Result Done → List QuantumData → Type 0
Updates p before (ok _) after = after ≡ mark_where p before
Updates p before (err e) after = after ≡ before

-- The outcome of a transaction, by the outcome of its body.
abbrev pub Commits :
    Result (List QuantumData)
    → Result (List QuantumData)
    → List QuantumData
    → List QuantumData
    → List QuantumData
    → Type 0
Commits (ok a) (ok b) before inside after = (b ≡ a) × (after ≡ inside)
Commits (ok a) (err e) before inside after = after ≡ before
Commits (err e) (ok b) before inside after = ⊥
Commits (err e) (err e') before inside after = (e' ≡ e) × (after ≡ before)

-- `first_key` finds the key with the ID, or fails; that the row is missing is one such failure.
abbrev pub Firsts :
    (GoError → Bool) → Option RsaKey → List RsaKey → Result RsaKey → List RsaKey → Type 0
Firsts missing key before (ok k) after = (key ≡ some k) × (after ≡ before)
Firsts missing key before (err e) after = (missing e ≡ true → key ≡ none) × (after ≡ before)

pub record IsGorm {D : Type 0} (db : Gorm D) (pool : D → List QuantumData) (vault : D → List RsaKey)
    : Type 0 where
  pub creates :
      (q : QuantumData) (d : D) → let (r, d') = db.create q d in Saves q (pool d) r (pool d')
  pub counts :
      (p : QuantumData → Bool) (d : D)
      → let (r, d') = db.count p d in Reads (length (filter p (pool d))) (pool d) r (pool d')
  pub finds :
      (p : QuantumData → Bool) (limit : Option ℕ) (d : D)
      → let (r, d') = db.find p limit d in
        Reads (limited limit (filter p (pool d))) (pool d) r (pool d')
  pub updates :
      (p : QuantumData → Bool) (d : D)
      → let (r, d') = db.update_used p d in Updates p (pool d) r (pool d')
  pub commits :
      (body : Action D (List QuantumData)) (d : D)
      → let (r, d₁) = body d in
        let (r', d') = db.transaction body d in Commits r r' (pool d) (pool d₁) (pool d')
  pub creates_key :
      (k : RsaKey) (d : D) → let (r, d') = db.create_key k d in SavesKey k (vault d) r (vault d')
  pub lists_keys :
      (d : D) → let (r, d') = db.find_keys d in ReadsKeys (vault d) (vault d) r (vault d')
  pub firsts :
      (id : ℕ) (d : D)
      → let (r, d') = db.first_key id d in
        Firsts db.is_record_not_found (find_key id (vault d)) (vault d) r (vault d')
  pub deletes_key :
      (id : ℕ) (d : D)
      → let (r, d') = db.delete_key id d in Writes (without_key id (vault d)) (vault d) r (vault d')
  pub clears : (d : D) → let (r, d') = db.delete_keys d in Writes [] (vault d) r (vault d')

-- The two tables are apart.
pub record IsSeparate {D : Type 0} (db : Gorm D) (pool : D → List QuantumData)
    (vault : D → List RsaKey) : Type 0 where
  pub vault-create : (q : QuantumData) (d : D) → vault (db.create q d).1 ≡ vault d
  pub vault-count : (p : QuantumData → Bool) (d : D) → vault (db.count p d).1 ≡ vault d
  pub vault-find :
      (p : QuantumData → Bool) (limit : Option ℕ) (d : D) → vault (db.find p limit d).1 ≡ vault d
  pub vault-update_used : (p : QuantumData → Bool) (d : D) → vault (db.update_used p d).1 ≡ vault d
  pub vault-transaction :
      (body : Action D (List QuantumData)) (d : D)
      → vault (body d).1 ≡ vault d
      → vault (db.transaction body d).1 ≡ vault d
  pub pool-create_key : (k : RsaKey) (d : D) → pool (db.create_key k d).1 ≡ pool d
  pub pool-find_keys : (d : D) → pool (db.find_keys d).1 ≡ pool d
  pub pool-first_key : (id : ℕ) (d : D) → pool (db.first_key id d).1 ≡ pool d
  pub pool-delete_key : (id : ℕ) (d : D) → pool (db.delete_key id d).1 ≡ pool d
  pub pool-delete_keys : (d : D) → pool (db.delete_keys d).1 ≡ pool d
