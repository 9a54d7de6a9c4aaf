-- ===== src/Keymanager/Service/Generate.antt =====
-- What `GenerateKey` does to the two tables, on every path.
use quantum_entropy_service.Common.{
  ℕ, ◌≡◌, refl, ap, ◌∙◌, inl, inr, ◌⊎◌, Bool, true, false, Bool-cases, String, List, [], ◌∷◌, ◌++◌,
  Result, ok, err, is_ok, arith, Keeps, keeps_then, bind_then, wrap_then, Keeps-view, Keeps-bind,
  pure, lift, ◌>>=◌, ◌>>◌, wrap,
}
use quantum_entropy_service.Messaging.Events.{
  key_created, exchange_key_events, routing_key_key_created,
}
use quantum_entropy_service.Keymanager.Model.{QuantumData, RsaKey}
use quantum_entropy_service.Keymanager.Stores.{AreStores, Distinct, use_first, Consumes, SavesKey}
use quantum_entropy_service.Keymanager.Crypto.{Crypto}
use quantum_entropy_service.Keymanager.Service.{
  World, Service, Call, in_db, at_db, publish, check_pool_status, entropy_per_key,
}
use quantum_entropy_service.Keymanager.Service.Keys.{is_key_size, wrap_key, make_key, generate_key}
use quantum_entropy_service.Keymanager.Service.Frames.{
  make_key-Keeps, check_pool_status-pool, check_pool_status-vault, check_pool_status-ok,
}

-- The vault before and after: a new last key with the request's alias and size, or no change.
abbrev pub Stored : String → ℕ → List RsaKey → Result RsaKey → List RsaKey → Type 0
Stored alias key_size before (ok key) after =
    (after ≡ before ++ key ∷ [])
    × (key.alias ≡ alias)
    × (key.key_size ≡ key_size)
    × (is_key_size key_size ≡ true)
Stored alias key_size before (err e) after = after ≡ before

-- The pool before and after: five records used, or, if the call failed, perhaps none.
abbrev pub Spent : ℕ → List QuantumData → Bool → List QuantumData → Type 0
Spent n before true after = after ≡ use_first n before
Spent n before false after = (after ≡ before) ⊎ (after ≡ use_first n before)

pub Spent-of_eq :
    (n : ℕ) (before after : List QuantumData) (b : Bool)
    → after ≡ use_first n before
    → Spent n before b after
Spent-of_eq n before after true h = h
Spent-of_eq n before after false h = inr h

module _ {D B C : Type 0} (c : Crypto) (svc : Service D B C) (pool : D → List QuantumData)
    (vault : D → List RsaKey) (stores : AreStores svc.store svc.keys pool vault) where
  abbrev pub finish : String → ℕ → RsaKey → Call c svc RsaKey
  finish alias key_size key = do
    publish c svc exchange_key_events routing_key_key_created (key_created key.id alias key_size)
    check_pool_status c svc
    pure key

  abbrev pub store_made : String → ℕ → RsaKey → Call c svc RsaKey
  store_made alias key_size prepared = do
    key ← wrap "failed to persist key" (at_db c svc (svc.keys.save_key prepared))
    finish alias key_size key

  abbrev pub make_and_store : String → ℕ → List QuantumData → Call c svc RsaKey
  make_and_store alias key_size records = do
    prepared ← make_key c svc alias key_size records
    store_made alias key_size prepared

  abbrev pub announced : String → ℕ → RsaKey → World D B c.Random C → World D B c.Random C
  announced alias key_size key w =
      (publish c svc exchange_key_events routing_key_key_created (key_created key.id alias key_size)
        w).1

  -- The last steps succeed, and change neither table.
  pub finish-eq :
      (alias : String) (key_size : ℕ) (key : RsaKey) (w : World D B c.Random C)
      → finish alias key_size key w
        ≡ (ok key, (check_pool_status c svc (announced alias key_size key w)).1)
  unfolding publish
  finish-eq alias key_size key w =
      rw (check_pool_status-ok c svc pool vault stores (announced alias key_size key w))

  finish-pool :
      (alias : String) (key_size : ℕ) (key : RsaKey)
      → Keeps (in_db pool) (finish alias key_size key)
  unfolding publish
  finish-pool alias key_size key = record {
    at = λ w.
        rw (finish-eq alias key_size key w)
          ((check_pool_status-pool c svc pool vault stores).at (announced alias key_size key w));
  }

  -- What is prepared has the request's alias and size.
  abbrev Named : String → ℕ → Result RsaKey → Type 0
  Named alias key_size (ok k) = (k.alias ≡ alias) × (k.key_size ≡ key_size)
  Named alias key_size (err e) = Unit {0}

  make_key-Named :
      (alias : String) (key_size : ℕ) (records : List QuantumData) (w : World D B c.Random C)
      → Named alias key_size (make_key c svc alias key_size records w).0
  unfolding make_key wrap_key
  make_key-Named alias key_size records w = ground arith

  -- One step of the argument, on the outcome of `SaveKey`.
  after_save :
      (alias : String) (key_size : ℕ) (k : RsaKey) (before : List RsaKey) (r : Result RsaKey)
      (w : World D B c.Random C)
      → is_key_size key_size ≡ true
      → (k.alias ≡ alias) × (k.key_size ≡ key_size)
      → SavesKey k before r (vault w.db)
      → let (r', w') = (wrap "failed to persist key" (lift r) >>= finish alias key_size) w in
        Stored alias key_size before r' (vault w'.db)
  unfolding publish
  after_save alias key_size k before (ok key) w size named saved =
      rw (finish-eq alias key_size key w) (
        (check_pool_status-vault c svc pool vault stores).at (announced alias key_size key w)
            ∙ saved.0,
        ap (λ (x : RsaKey). x.alias) saved.1 ∙ named.0,
        ap (λ (x : RsaKey). x.key_size) saved.1 ∙ named.1,
        size,
      )
  after_save alias key_size k before (err e) w size named saved = saved

  store_made-Stored :
      (alias : String) (key_size : ℕ) (k : RsaKey) (w : World D B c.Random C)
      → is_key_size key_size ≡ true
      → (k.alias ≡ alias) × (k.key_size ≡ key_size)
      → let (r, w') = store_made alias key_size k w in
        Stored alias key_size (vault w.db) r (vault w'.db)
  store_made-Stored alias key_size k w size named =
      let (r, db) = svc.keys.save_key k w.db in
      after_save alias key_size k (vault w.db) r (record w { db = db }) size named
        (stores.vaulting.saves k w.db)

  make_and_store-Stored :
      (alias : String) (key_size : ℕ) (records : List QuantumData) (w : World D B c.Random C)
      → is_key_size key_size ≡ true
      → let (r, w') = make_and_store alias key_size records w in
        Stored alias key_size (vault w.db) r (vault w'.db)
  make_and_store-Stored alias key_size records w size =
      bind_then (λ r w'. Named alias key_size r × (w'.db ≡ w.db))
        (λ r w'. Stored alias key_size (vault w.db) r (vault w'.db))
        (make_key c svc alias key_size records) (store_made alias key_size) w
        (
          make_key-Named alias key_size records w,
          (make_key-Keeps c svc alias key_size records).at w,
        )
        (λ e w' h. ap vault h.1)
        (λ k w' h. rw (← h.1) (store_made-Stored alias key_size k w' size h.0))

  -- `GenerateKey` is atomic on the vault: on success exactly one key is added, at the end, with the
  -- alias and the size asked for, which is 2048 or 4096; on any error the vault is unchanged.
  pub generate_key-Stored :
      (alias : String) (key_size : ℕ) (w : World D B c.Random C)
      → let (r, w') = generate_key c svc alias key_size w in
        Stored alias key_size (vault w.db) r (vault w'.db)
  unfolding generate_key
  generate_key-Stored alias key_size w = elim (Bool-cases (is_key_size key_size)) [
    | inr bad ↦ rw bad refl
    | inl good ↦ rw good (
        keeps_then {view = in_db vault} (λ r w'. Stored alias key_size (vault w.db) r (vault w'.db))
          (wrap "pool exhausted" (at_db c svc (svc.store.consume_entropy entropy_per_key)))
          (make_and_store alias key_size) w
          (record { at = λ v. stores.apart.vault-consume_entropy entropy_per_key v.db })
          (λ e w₁ h. h)
          (λ records w₁ h. rw (← h) (make_and_store-Stored alias key_size records w₁ good)))
  ]

  make_and_store-pool :
      (alias : String) (key_size : ℕ) (records : List QuantumData)
      → Keeps (in_db pool) (make_and_store alias key_size records)
  make_and_store-pool alias key_size records =
      Keeps-bind (make_key c svc alias key_size records) (store_made alias key_size)
        (Keeps-view pool (make_key-Keeps c svc alias key_size records))
        (λ k.
          Keeps-bind (wrap "failed to persist key" (at_db c svc (svc.keys.save_key k)))
            (finish alias key_size) (record { at = λ w. stores.apart.pool-save_key k w.db })
            (finish-pool alias key_size))

  -- A key costs exactly five records: on success the first five unused records are used and no
  -- other; on an error either these five are used, or the pool is unchanged.
  pub generate_key-Spent :
      (alias : String) (key_size : ℕ) (w : World D B c.Random C)
      → Distinct (pool w.db)
      → let (r, w') = generate_key c svc alias key_size w in
        Spent entropy_per_key (pool w.db) (is_ok r) (pool w'.db)
  unfolding generate_key
  generate_key-Spent alias key_size w d = elim (Bool-cases (is_key_size key_size)) [
    | inr bad ↦ rw bad (inl refl)
    | inl good ↦ rw good (
        wrap_then (λ r w'. Consumes entropy_per_key (pool w.db) r (pool w'.db))
          (λ r w'. Spent entropy_per_key (pool w.db) (is_ok r) (pool w'.db)) "pool exhausted"
          (at_db c svc (svc.store.consume_entropy entropy_per_key)) (make_and_store alias key_size)
          w (stores.entropy.consumes entropy_per_key w.db d) (λ e e' w₁ h. inl h)
          (λ records w₁ h.
            Spent-of_eq entropy_per_key (pool w.db) _ _
              ((make_and_store-pool alias key_size records).at w₁ ∙ h.2)))
  ]
