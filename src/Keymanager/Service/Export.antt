-- ===== src/Keymanager/Service/Export.antt =====
-- `ExportPrivateKey` and the two deletions, on every path.
use quantum_entropy_service.Common.{
  ℕ, ◌≡◌, refl, sym, subst, ◌∙◌, inl, inr, ◌⊎◌, List, [], ◌∷◌, Option, some, none, Bool, true,
  false, if◌then◌else◌, ok-injective, Result, ok, err, is_ok, All, ◌==◌, wrap_then, bind_then,
  Keeps, Keeps-bind, Keeps-view, Keeps-wrap, pure, wrap, ◌>>=◌, ◌>>◌,
}
use quantum_entropy_service.Messaging.Events.{
  key_exported, exchange_key_events, routing_key_key_exported,
}
use quantum_entropy_service.Keymanager.Model.{Bytes, QuantumData, RsaKey}
use quantum_entropy_service.Keymanager.Stores.{AreStores, ReadsKeys, Consumes, Distinct, find_key}
use quantum_entropy_service.Keymanager.Crypto.{Crypto}
use quantum_entropy_service.Keymanager.Service.{
  World, Service, Call, in_db, at_db, publish, check_pool_status, entropy_per_export,
}
use quantum_entropy_service.Keymanager.Service.Keys.{present, aes_gcm_decrypt, export_private_key}
use quantum_entropy_service.Keymanager.Service.Frames.{
  aes_gcm_decrypt-Keeps, check_pool_status-pool, check_pool_status-ok,
}
use quantum_entropy_service.Keymanager.Service.Generate.{Spent, Spent-of_eq}
use quantum_entropy_service.Keymanager.Service.Wrap.{Cached, IsSealed}
use quantum_entropy_service.Keymanager.Service.Sealed.{AllSealed}

found_or_later :
    (b : Bool) (x k : RsaKey) (rest : Option RsaKey)
    → (if b then some x else rest) ≡ some k
    → (x ≡ k) ⊎ (rest ≡ some k)
found_or_later true x k rest e = inl (cc)
found_or_later false x k rest e = inr e

All-find_key :
    (P : RsaKey → Type 0) (id : ℕ) (keys : List RsaKey) (k : RsaKey)
    → All P keys
    → find_key id keys ≡ some k
    → P k
unfolding find_key
All-find_key P id [] k h e = cc
All-find_key P id (x ∷ keys) k h e = elim (found_or_later (x.id == id) x k (find_key id keys) e) [
  | inl here ↦ subst P here h.0
  | inr later ↦ All-find_key P id keys k h.1 later
]

module _ {D B C : Type 0} (c : Crypto) (svc : Service D B C) (pool : D → List QuantumData)
    (vault : D → List RsaKey) (stores : AreStores svc.store svc.keys pool vault) where
  abbrev announce_export : ℕ → RsaKey → Bytes → Call c svc Bytes
  announce_export id key private_pem = do
    publish c svc exchange_key_events routing_key_key_exported
        (key_exported id key.alias "AES-256-GCM")
    check_pool_status c svc
    pure private_pem

  abbrev unwrap : ℕ → RsaKey → Call c svc Bytes
  unwrap id key = do
    private_pem ←
        wrap "key unwrapping failed" (aes_gcm_decrypt c svc key.encrypted_private_pem key.nonce)
    announce_export id key private_pem

  abbrev pay_and_unwrap : ℕ → RsaKey → Call c svc Bytes
  pay_and_unwrap id key = do
    _ ←
        wrap "pool exhausted for export"
          (at_db c svc (svc.store.consume_entropy entropy_per_export))
    unwrap id key

  -- The last steps of an export leave the pool alone.
  unwrap-pool : (id : ℕ) (key : RsaKey) → Keeps (in_db pool) (unwrap id key)
  unfolding publish
  unwrap-pool id key =
      Keeps-bind
        (wrap "key unwrapping failed" (aes_gcm_decrypt c svc key.encrypted_private_pem key.nonce))
        (announce_export id key)
        (Keeps-wrap _ _ (Keeps-view pool (aes_gcm_decrypt-Keeps c svc _ _)))
        λ pem.
          Keeps-bind
            (publish c svc exchange_key_events routing_key_key_exported
              (key_exported id key.alias "AES-256-GCM"))
            (λ _. check_pool_status c svc >> pure pem) (record { at = λ w. refl })
            λ _.
              Keeps-bind (check_pool_status c svc) (λ _. pure pem)
                (check_pool_status-pool c svc pool vault stores) λ _. record { at = λ w. refl }

  -- The pool after an export: for an ID that is not in the vault it is unchanged, and the call failed.
  abbrev pub Charged : Option RsaKey → List QuantumData → Bool → List QuantumData → Type 0
  Charged none before done after = (done ≡ false) × (after ≡ before)
  Charged (some key) before done after = Spent entropy_per_export before done after

  after_find-Charged :
      (id : ℕ) (found : Option RsaKey) (w : World D B c.Random C)
      → Distinct (pool w.db)
      → let (r, w') = (present c svc found >>= pay_and_unwrap id) w in
        Charged found (pool w.db) (is_ok r) (pool w'.db)
  after_find-Charged id none w d = (refl, refl)
  after_find-Charged id (some key) w d =
      wrap_then (λ r w'. Consumes entropy_per_export (pool w.db) r (pool w'.db))
        (λ r w'. Spent entropy_per_export (pool w.db) (is_ok r) (pool w'.db))
        "pool exhausted for export" (at_db c svc (svc.store.consume_entropy entropy_per_export))
        (λ _. unwrap id key) w (stores.entropy.consumes entropy_per_export w.db d)
        (λ e e' w' h. inl h)
        (λ records w' h. Spent-of_eq _ _ _ _ ((unwrap-pool id key).at w' ∙ h.2))

  Charged-failed :
      (found : Option RsaKey) (before after : List QuantumData)
      → after ≡ before
      → Charged found before false after
  Charged-failed none before after h = (refl, h)
  Charged-failed (some key) before after h = inl h

  -- An export costs exactly two records: on success the first two unused records are used; on an
  -- error these two or none; and none where the vault has no key with the ID, which is an error.
  pub export_private_key-Charged :
      (id : ℕ) (w : World D B c.Random C)
      → Distinct (pool w.db)
      → let (r, w') = export_private_key c svc id w in
        Charged (find_key id (vault w.db)) (pool w.db) (is_ok r) (pool w'.db)
  unfolding export_private_key
  export_private_key-Charged id w d =
      bind_then
        (λ r w'.
          ReadsKeys (find_key id (vault w.db)) (vault w.db) r (vault w'.db)
          × (pool w'.db ≡ pool w.db))
        (λ r w'. Charged (find_key id (vault w.db)) (pool w.db) (is_ok r) (pool w'.db))
        (at_db c svc (svc.keys.find_key_by_id id))
        (λ found. present c svc found >>= pay_and_unwrap id) w
        (stores.vaulting.finds id w.db, stores.apart.pool-find_key_by_id id w.db)
        (λ e w' h. Charged-failed _ _ _ h.1)
        (λ found w' h.
          rw (← h.0.0, ← h.1) (after_find-Charged id found w' (subst Distinct (sym h.1) d)))

  -- What an export returns is the private key that the public key of the vault belongs to.
  abbrev pub Exported : ℕ → List RsaKey → Result Bytes → Type 0
  Exported id keys (ok pem) =
      (key : RsaKey) × (private : c.PrivateKey) × (public_der : Bytes) × (find_key id keys
        ≡ some key)
      × (pem ≡ c.private_pem (c.marshal_private private))
      × (c.marshal_public private ≡ ok public_der)
      × (key.public_key_pem ≡ c.public_pem public_der)
  Exported id keys (err e) = Unit {0}

  announce_export-ok :
      (id : ℕ) (key : RsaKey) (pem : Bytes) (w : World D B c.Random C)
      → (announce_export id key pem w).0 ≡ ok pem
  unfolding publish
  announce_export-ok id key pem w =
      let w₁ =
        (publish c svc exchange_key_events routing_key_key_exported
          (key_exported id key.alias "AES-256-GCM") w).1 in
      rw (check_pool_status-ok c svc pool vault stores w₁)

  unwrap-Exported :
      (id : ℕ) (keys : List RsaKey) (key : RsaKey) (w : World D B c.Random C)
      → find_key id keys ≡ some key
      → IsSealed c svc key
      → Cached c svc w.derived
      → Exported id keys (unwrap id key w).0
  unwrap-Exported id keys key w found sealed cached =
      let (private, public_der, marshals, public, opens) = sealed in
      wrap_then (λ r w'. r ≡ ok (c.private_pem (c.marshal_private private)))
        (λ r w'. Exported id keys r) "key unwrapping failed"
        (aes_gcm_decrypt c svc key.encrypted_private_pem key.nonce) (announce_export id key) w
        (opens w cached) (λ e e' w' k. tt)
        (λ pem w' k.
          rw (announce_export-ok id key pem w')
            (key, private, public_der, found, ok-injective k, marshals, public))

  after_find :
      (id : ℕ) (keys : List RsaKey) (found : Option RsaKey) (w : World D B c.Random C)
      → found ≡ find_key id keys
      → All (IsSealed c svc) keys
      → Cached c svc w.derived
      → Exported id keys ((present c svc found >>= pay_and_unwrap id) w).0
  after_find id keys none w e all cached = tt
  after_find id keys (some key) w e all cached =
      wrap_then (λ r w'. w'.derived ≡ w.derived) (λ r w'. Exported id keys r)
        "pool exhausted for export" (at_db c svc (svc.store.consume_entropy entropy_per_export))
        (λ _. unwrap id key) w refl (λ e e' w' k. tt)
        (λ _ w' k.
          unwrap-Exported id keys key w' (sym e)
            (All-find_key (IsSealed c svc) id keys key all (sym e))
            (subst (Cached c svc) (sym k) cached))

  -- Where all keys are sealed, a successful export returns the private key that belongs to the
  -- public key stored under that ID.
  pub export_private_key-Exported :
      (id : ℕ) (w : World D B c.Random C)
      → AllSealed c svc pool vault w
      → Exported id (vault w.db) (export_private_key c svc id w).0
  unfolding export_private_key
  export_private_key-Exported id w (all, cached) =
      bind_then
        (λ r w'.
          ReadsKeys (find_key id (vault w.db)) (vault w.db) r (vault w'.db)
          × (w'.derived ≡ w.derived))
        (λ r w'. Exported id (vault w.db) r) (at_db c svc (svc.keys.find_key_by_id id))
        (λ found. present c svc found >>= pay_and_unwrap id) w (stores.vaulting.finds id w.db, refl)
        (λ e w' k. tt)
        (λ found w' k.
          after_find id (vault w.db) found w' k.0.0 all (subst (Cached c svc) (sym k.1) cached))
