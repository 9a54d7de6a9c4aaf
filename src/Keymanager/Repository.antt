-- ===== src/Keymanager/Repository.antt =====
-- internal/keymanager/repository.go. GORM and SQLite are not part of the repository: they are the
-- record `Gorm` of the calls that the code makes, with their documented effect on the two tables in
-- `IsGorm`. A query lists the rows in the order in which the table is scanned.
pub mod Laws
pub mod Consume
pub mod Memory
pub mod Refine
use quantum_entropy_service.Common.{
  ℕ, ◌≡◌, ◌≢◌, Bool, true, false, not, ◌&&◌, ◌||◌, str_eq, ltb, ◌==◌, if◌then◌else◌, List, [], ◌∷◌,
  ◌++◌, map, Option, none, some, String, Done, GoError, message, Action, Result, ok, err, take,
  filter, length, All, pure, fail, lift, attempt, ◌>>=◌,
}
use quantum_entropy_service.Keymanager.Model.{QuantumData, RsaKey}
use quantum_entropy_service.Keymanager.Stores.{
  EntropyStore, KeyStore, is_unused, is_unused_of, mark_used,
}

pub record Gorm (D : Type 0) : Type 0 where
  -- db.Create(q), which fills the ID
  pub create : QuantumData → Action D QuantumData
  -- db.Model(&QuantumData{}).Where(p).Count(&count)
  pub count : (QuantumData → Bool) → Action D ℕ
  -- db.Where(p).Limit(n).Find(&records)
  pub find : (QuantumData → Bool) → Option ℕ → Action D (List QuantumData)
  -- db.Model(&QuantumData{}).Where(p).Update("used", true)
  pub update_used : (QuantumData → Bool) → Action D Done
  -- db.Transaction(body)
  pub transaction : Action D (List QuantumData) → Action D (List QuantumData)
  pub create_key : RsaKey → Action D RsaKey
  pub find_keys : Action D (List RsaKey)
  -- db.First(&key, id)
  pub first_key : ℕ → Action D RsaKey
  -- errors.Is(err, gorm.ErrRecordNotFound)
  pub is_record_not_found : GoError → Bool
  -- db.Unscoped().Delete(&RsaKey{}, id)
  pub delete_key : ℕ → Action D Done
  -- db.Unscoped().Where("1 = 1").Delete(&RsaKey{})
  pub delete_keys : Action D Done

abbrev pub insufficient : GoError
insufficient = message "insufficient entropy in pool"

abbrev pub has_id : List ℕ → QuantumData → Bool
has_id [] q = false
has_id (i ∷ ids) q = i == q.id || has_id ids q

module _ {D : Type 0} (db : Gorm D) where
  unfoldable pub save_entropy : QuantumData → Action D QuantumData
  save_entropy q = db.create q

  unfoldable pub count_all_unused_entropy : Action D ℕ
  count_all_unused_entropy = db.count is_unused

  unfoldable pub find_all_unused_by_source : String → Action D (List QuantumData)
  find_all_unused_by_source source = db.find (is_unused_of source) none

  unfoldable pub mark_records : ℕ → List QuantumData → Action D (List QuantumData)
  mark_records n records = if ltb (length records) n then fail insufficient else do
    let ids = map (λ (r : QuantumData). r.id) records
    _ ← db.update_used (has_id ids)
    pure records

  -- The function that `Transaction` runs.
  unfoldable pub consume_body : ℕ → Action D (List QuantumData)
  unfolding mark_records
  consume_body n = do records ← db.find is_unused (some n); mark_records n records

  unfoldable pub consume_entropy : ℕ → Action D (List QuantumData)
  unfolding consume_body
  consume_entropy n = db.transaction (consume_body n)

  unfoldable pub save_key : RsaKey → Action D RsaKey
  save_key k = db.create_key k

  unfoldable pub find_all_keys : Action D (List RsaKey)
  find_all_keys = db.find_keys

  abbrev found : Result RsaKey → Action D (Option RsaKey)
  found (ok key) = pure (some key)
  found (err e) = if db.is_record_not_found e then pure none else fail e

  unfoldable pub find_key_by_id : ℕ → Action D (Option RsaKey)
  find_key_by_id id = do r ← attempt (db.first_key id); found r

  unfoldable pub delete_key_by_id : ℕ → Action D Done
  delete_key_by_id id = db.delete_key id

  unfoldable pub delete_all_keys : Action D Done
  delete_all_keys = db.delete_keys

  abbrev pub entropy_store : EntropyStore D
  entropy_store = record {
    save_entropy = save_entropy;
    consume_entropy = consume_entropy;
    count_all_unused_entropy = count_all_unused_entropy;
    find_all_unused_by_source = find_all_unused_by_source;
  }

  abbrev pub key_store : KeyStore D
  key_store = record {
    save_key = save_key;
    find_all_keys = find_all_keys;
    find_key_by_id = find_key_by_id;
    delete_key_by_id = delete_key_by_id;
    delete_all_keys = delete_all_keys;
  }
