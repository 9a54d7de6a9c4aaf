-- ===== src/Keymanager/Repository/Refine.antt =====
-- The repository meets the interfaces' laws, given those of GORM.
use quantum_entropy_service.Common.{
  ℕ, ◌≡◌, List, some, none, Result, Option, Bool, Keeps, keeps, ok, err, arith, take, continue,
  length-take,
}
use quantum_entropy_service.Keymanager.Model.{QuantumData, RsaKey}
use quantum_entropy_service.Keymanager.Stores.{
  IsEntropyStore, IsKeyStore, AreApart, Consumes, Reads, ReadsKeys, Distinct, is_unused, unused,
  find_key,
}
use quantum_entropy_service.Keymanager.Repository.{
  Gorm, has_id, mark_records, consume_body, consume_entropy, entropy_store, key_store,
  find_key_by_id, save_entropy, count_all_unused_entropy, find_all_unused_by_source, save_key,
  find_all_keys, delete_key_by_id, delete_all_keys,
}
use quantum_entropy_service.Keymanager.Repository.Laws.{IsGorm, IsSeparate, Commits}
use quantum_entropy_service.Keymanager.Repository.Consume.{ids_of, mark_where-use_first}

module _ {D : Type 0} (db : Gorm D) (pool : D → List QuantumData) (vault : D → List RsaKey)
    (laws : IsGorm db pool vault) where
  mark_records-Consumes :
      (n : ℕ) (before : List QuantumData) (d : D)
      → Distinct before
      → pool d ≡ before
      → let (r, d') = mark_records db n (take n (unused before)) d in Consumes n before r (pool d')
  unfolding mark_records
  mark_records-Consumes n before d distinct same = ground (
    arith,
    laws.updates (has_id (ids_of (take n (unused before)))) d,
    mark_where-use_first n before distinct,
    length-take n (unused before),
  )

  after_find :
      (n : ℕ) (before : List QuantumData) (r : Result (List QuantumData)) (d : D)
      → Distinct before
      → Reads (take n (unused before)) before r (pool d)
      → let (r', d') = continue r (mark_records db n) d in Consumes n before r' (pool d')
  after_find n before (ok records) d distinct found =
      rw found.0 (mark_records-Consumes n before d distinct found.1)
  after_find n before (err e) d distinct found = found

  consume_body-Consumes :
      (n : ℕ) (d : D)
      → Distinct (pool d)
      → let (r, d') = consume_body db n d in Consumes n (pool d) r (pool d')
  unfolding consume_body
  consume_body-Consumes n d distinct =
      let (r, d₁) = db.find is_unused (some n) d in
      after_find n (pool d) r d₁ distinct (laws.finds is_unused (some n) d)

  -- A transaction hands on what its body did, or undoes it.
  after_body :
      (n : ℕ) (before inside after : List QuantumData) (r r' : Result (List QuantumData))
      → Consumes n before r inside
      → Commits r r' before inside after
      → Consumes n before r' after
  after_body n before inside after (ok a) (ok b) c k = ground arith
  after_body n before inside after (ok a) (err e) c k = k
  after_body n before inside after (err e) (ok b) c k = elim k [ ]
  after_body n before inside after (err e) (err e') c k = k.1

  find_key_by_id-ReadsKeys :
      (id : ℕ) (d : D)
      → let (r, d') = find_key_by_id db id d in
        ReadsKeys (find_key id (vault d)) (vault d) r (vault d')
  unfolding find_key_by_id
  find_key_by_id-ReadsKeys id d = ground (arith, laws.firsts id d)

  -- The repository is an entropy store: given the laws of GORM, each of its methods has the effect
  -- that the interface promises, on success and on failure.
  pub entropy_store-IsEntropyStore : IsEntropyStore (entropy_store db) pool
  unfolding save_entropy count_all_unused_entropy find_all_unused_by_source consume_entropy
  entropy_store-IsEntropyStore = record {
    saves = laws.creates;
    consumes = λ n d distinct.
        after_body n (pool d) _ _ _ _ (consume_body-Consumes n d distinct)
          (laws.commits (consume_body db n) d);
    counts = laws.counts is_unused;
    finds = λ source. laws.finds _ none;
  }

  -- It is also a key store.
  pub key_store-IsKeyStore : IsKeyStore (key_store db) vault
  unfolding save_key find_all_keys delete_key_by_id delete_all_keys
  key_store-IsKeyStore = record {
    saves = laws.creates_key;
    lists = laws.lists_keys;
    finds = find_key_by_id-ReadsKeys;
    deletes = laws.deletes_key;
    clears = laws.clears;
  }

module _ {D : Type 0} (db : Gorm D) (pool : D → List QuantumData) (vault : D → List RsaKey)
    (separate : IsSeparate db pool vault) where
  update_used-Keeps : (p : QuantumData → Bool) → Keeps vault (db.update_used p)
  update_used-Keeps p = record { at = separate.vault-update_used p }

  find-Keeps : (p : QuantumData → Bool) (limit : Option ℕ) → Keeps vault (db.find p limit)
  find-Keeps p limit = record { at = separate.vault-find p limit }

  consume_body-Keeps : (n : ℕ) → Keeps vault (consume_body db n)
  unfolding consume_body
  consume_body-Keeps n = search (keeps, find-Keeps, update_used-Keeps)

  pub repository-AreApart : AreApart (entropy_store db) (key_store db) pool vault
  unfolding save_entropy count_all_unused_entropy find_all_unused_by_source consume_entropy save_key
      find_all_keys find_key_by_id delete_key_by_id delete_all_keys
  repository-AreApart = record {
    vault-save_entropy = separate.vault-create;
    vault-consume_entropy = λ n d. separate.vault-transaction _ d ((consume_body-Keeps n).at d);
    vault-count = separate.vault-count is_unused;
    vault-find = λ source. separate.vault-find _ none;
    pool-save_key = separate.pool-create_key;
    pool-find_all_keys = separate.pool-find_keys;
    pool-find_key_by_id = λ id d. ground (arith, separate.pool-first_key id d);
    pool-delete_key_by_id = separate.pool-delete_key;
    pool-delete_all_keys = separate.pool-delete_keys;
  }
