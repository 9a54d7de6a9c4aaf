-- ===== src/Keymanager/Service/Kept.antt =====
-- The other operations of the service keep what the vault and the cached key are known to be.
use quantum_entropy_service.Common.{
  ℕ, ◌≡◌, sym, subst, List, [], ◌∷◌, Option, none, some, Result, ok, err, Action, All, arith,
  String, preserves_then, pure, wrap, lift, ◌>>=◌, ◌>>◌, Done,
}
use quantum_entropy_service.Messaging.Events.{
  key_exported, key_deleted, exchange_key_events, routing_key_key_exported, routing_key_key_deleted,
  Event,
}
use quantum_entropy_service.Keymanager.Model.{Bytes, QuantumData, RsaKey}
use quantum_entropy_service.Keymanager.Stores.{AreStores, ReadsKeys, Writes, find_key, without_key}
use quantum_entropy_service.Keymanager.Crypto.{Crypto}
use quantum_entropy_service.Keymanager.Service.{
  World, Service, Call, at_db, publish, check_pool_status, entropy_per_export,
}
use quantum_entropy_service.Keymanager.Service.Keys.{
  present, master_gcm, aes_gcm_decrypt, export_private_key, pool_status, delete_key,
  delete_all_keys, announce_deleted,
}
use quantum_entropy_service.Keymanager.Service.Frames.{
  aes_gcm_decrypt-Keeps, check_pool_status-vault, check_pool_status-derived,
}
use quantum_entropy_service.Keymanager.Service.Wrap.{Cached, IsSealed, master_gcm-Cached}
use quantum_entropy_service.Keymanager.Service.Sealed.{AllSealed}

All-without_key :
    (P : RsaKey → Type 0) (id : ℕ) (keys : List RsaKey) → All P keys → All P (without_key id keys)
unfolding without_key
All-without_key P id [] h = h
All-without_key P id (k ∷ keys) h = ground (arith, All-without_key P id keys h.1)

read_same :
    {A : Type 0} (a : A) (before after : List RsaKey) (r : Result A)
    → ReadsKeys a before r after
    → after ≡ before
read_same a before after (ok x) h = h.1
read_same a before after (err e) h = h

All-Writes :
    (P : RsaKey → Type 0) (target before after : List RsaKey) (r : Result Done)
    → All P target
    → All P before
    → Writes target before r after
    → All P after
All-Writes P target before after (ok x) t b h = rw h t
All-Writes P target before after (err e) t b h = rw h b

module _ {D B C : Type 0} (c : Crypto) (svc : Service D B C) (pool : D → List QuantumData)
    (vault : D → List RsaKey) (stores : AreStores svc.store svc.keys pool vault) where
  abbrev Good : World D B c.Random C → Type 0
  Good = AllSealed c svc pool vault

  at_db-Good :
      {A : Type 0} (m : Action D A) (w : World D B c.Random C)
      → vault (m w.db).1 ≡ vault w.db
      → Good w
      → Good (at_db c svc m w).1
  at_db-Good m w e h = (subst (All (IsSealed c svc)) (sym e) h.0, h.1)

  publish-Good :
      (exchange routing_key : String) (event : Event) (w : World D B c.Random C)
      → Good w
      → Good (publish c svc exchange routing_key event w).1
  unfolding publish
  publish-Good exchange routing_key event w h = h

  check_pool_status-Good : (w : World D B c.Random C) → Good w → Good (check_pool_status c svc w).1
  check_pool_status-Good w h = (
    subst (All (IsSealed c svc)) (sym ((check_pool_status-vault c svc pool vault stores).at w)) h.0,
    subst (Cached c svc) (sym ((check_pool_status-derived c svc).at w)) h.1,
  )

  decrypt-Cached :
      (ciphertext nonce : Bytes) (w : World D B c.Random C)
      → Cached c svc w.derived
      → Cached c svc (aes_gcm_decrypt c svc ciphertext nonce w).1.derived
  unfolding aes_gcm_decrypt
  decrypt-Cached ciphertext nonce w h =
      preserves_then (λ w. Cached c svc w.derived) (master_gcm c svc)
        (λ gcm. lift (c.open_ gcm nonce ciphertext)) w (master_gcm-Cached c svc w h).1
        (λ gcm s k. k)

  aes_gcm_decrypt-Good :
      (ciphertext nonce : Bytes) (w : World D B c.Random C)
      → Good w
      → Good (aes_gcm_decrypt c svc ciphertext nonce w).1
  aes_gcm_decrypt-Good ciphertext nonce w h = (
    subst (λ d. All (IsSealed c svc) (vault d))
        (sym ((aes_gcm_decrypt-Keeps c svc ciphertext nonce).at w)) h.0,
    decrypt-Cached ciphertext nonce w h.1,
  )

  vault-find_key_by_id : (id : ℕ) (d : D) → vault (svc.keys.find_key_by_id id d).1 ≡ vault d
  vault-find_key_by_id id d =
      read_same (find_key id (vault d)) (vault d) _ (svc.keys.find_key_by_id id d).0
        (stores.vaulting.finds id d)

  -- The rest of an export, once the key is found.
  abbrev finish_export : ℕ → RsaKey → Call c svc Bytes
  finish_export id key = do
    _ ←
        wrap "pool exhausted for export"
          (at_db c svc (svc.store.consume_entropy entropy_per_export))
    pem ← wrap "key unwrapping failed" (aes_gcm_decrypt c svc key.encrypted_private_pem key.nonce)
    publish c svc exchange_key_events routing_key_key_exported
        (key_exported id key.alias "AES-256-GCM")
    check_pool_status c svc
    pure pem

  finish_export-Good :
      (id : ℕ) (key : RsaKey) (w : World D B c.Random C) → Good w → Good (finish_export id key w).1
  finish_export-Good id key w h =
      preserves_then Good
        (wrap "pool exhausted for export"
          (at_db c svc (svc.store.consume_entropy entropy_per_export)))
        _ w
        (at_db-Good (svc.store.consume_entropy entropy_per_export) w
          (stores.apart.vault-consume_entropy entropy_per_export w.db) h)
        λ _ w₁ h₁.
          preserves_then Good
            (wrap "key unwrapping failed"
              (aes_gcm_decrypt c svc key.encrypted_private_pem key.nonce))
            _ w₁ (aes_gcm_decrypt-Good key.encrypted_private_pem key.nonce w₁ h₁)
            λ pem w₂ h₂.
              preserves_then Good
                (publish c svc exchange_key_events routing_key_key_exported
                  (key_exported id key.alias "AES-256-GCM"))
                _ w₂ (publish-Good _ _ _ w₂ h₂)
                λ _ w₃ h₃.
                  preserves_then Good (check_pool_status c svc) (λ _. pure pem) w₃
                    (check_pool_status-Good w₃ h₃) (λ _ w₄ h₄. h₄)

  -- `ExportPrivateKey` keeps all keys of the vault exportable.
  pub export_private_key-AllSealed :
      (id : ℕ) (w : World D B c.Random C) → Good w → Good (export_private_key c svc id w).1
  unfolding export_private_key
  export_private_key-AllSealed id w h =
      preserves_then Good (at_db c svc (svc.keys.find_key_by_id id)) _ w
        (at_db-Good (svc.keys.find_key_by_id id) w (vault-find_key_by_id id w.db) h) on_found
    where
      on_found :
          (found : Option RsaKey) (w : World D B c.Random C)
          → Good w
          → Good ((present c svc found >>= finish_export id) w).1
      on_found none w h = h
      on_found (some key) w h = finish_export-Good id key w h

  -- `DeleteKey` and `DeleteAllKeys` keep the keys that are left exportable.
  pub delete_key-AllSealed :
      (id : ℕ) (w : World D B c.Random C) → Good w → Good (delete_key c svc id w).1
  unfolding delete_key
  delete_key-AllSealed id w h =
      preserves_then Good (at_db c svc (svc.keys.find_key_by_id id)) _ w
        (at_db-Good (svc.keys.find_key_by_id id) w (vault-find_key_by_id id w.db) h) on_found
    where
      deleted : (key : RsaKey) → Call c svc Done
      deleted key = do
        at_db c svc (svc.keys.delete_key_by_id id)
        publish c svc exchange_key_events routing_key_key_deleted (key_deleted id key.alias)

      on_found :
          (found : Option RsaKey) (w : World D B c.Random C)
          → Good w
          → Good ((present c svc found >>= deleted) w).1
      on_found none w h = h
      on_found (some key) w h =
          preserves_then Good (at_db c svc (svc.keys.delete_key_by_id id)) _ w
            (
              All-Writes (IsSealed c svc) (without_key id (vault w.db)) (vault w.db) _
                  (svc.keys.delete_key_by_id id w.db).0
                  (All-without_key (IsSealed c svc) id (vault w.db) h.0) h.0
                  (stores.vaulting.deletes id w.db),
              h.1,
            )
            λ _ w₁ h₁.
              publish-Good exchange_key_events routing_key_key_deleted (key_deleted id key.alias) w₁
                h₁

  announce_deleted-Good :
      (keys : List RsaKey) (w : World D B c.Random C)
      → Good w
      → Good (announce_deleted c svc keys w).1
  unfolding announce_deleted
  announce_deleted-Good [] w h = h
  announce_deleted-Good (k ∷ keys) w h =
      preserves_then Good
        (publish c svc exchange_key_events routing_key_key_deleted (key_deleted k.id k.alias)) _ w
        (publish-Good _ _ _ w h) (λ _ w₁ h₁. announce_deleted-Good keys w₁ h₁)

  -- The list of the keys changes neither.
  pub find_all_keys-AllSealed :
      (w : World D B c.Random C) → Good w → Good (at_db c svc svc.keys.find_all_keys w).1
  find_all_keys-AllSealed w h =
      at_db-Good svc.keys.find_all_keys w
        (read_same (vault w.db) (vault w.db) _ (svc.keys.find_all_keys w.db).0
          (stores.vaulting.lists w.db))
        h

  pub delete_all_keys-AllSealed :
      (w : World D B c.Random C) → Good w → Good (delete_all_keys c svc w).1
  unfolding delete_all_keys
  delete_all_keys-AllSealed w h =
      preserves_then Good (at_db c svc svc.keys.find_all_keys) _ w (find_all_keys-AllSealed w h)
        λ keys w₁ h₁.
          preserves_then Good (at_db c svc svc.keys.delete_all_keys) _ w₁
            (
              All-Writes (IsSealed c svc) [] (vault w₁.db) _ (svc.keys.delete_all_keys w₁.db).0 tt
                  h₁.0 (stores.vaulting.clears w₁.db),
              h₁.1,
            )
            λ _ w₂ h₂. announce_deleted-Good keys w₂ h₂

  -- `PoolStatus` changes neither.
  pub pool_status-AllSealed : (w : World D B c.Random C) → Good w → Good (pool_status c svc w).1
  unfolding pool_status
  pool_status-AllSealed w h =
      at_db-Good svc.store.count_all_unused_entropy w (stores.apart.vault-count w.db) h
