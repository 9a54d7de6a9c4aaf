-- ===== src/Keymanager/Service/Keys.antt =====
-- The operations of `Service` on keys: generation, export, deletion, and the wrapping of private keys.
use quantum_entropy_service.Common.{
  ℕ, Bool, ◌||◌, ◌==◌, List, [], ◌∷◌, ◌++◌, Option, none, some, String, Done, GoError, message,
  Result, ok, err, pure, fail, lift, wrap, guard, ◌>>=◌, ◌>>◌,
}
use quantum_entropy_service.Messaging.Events.{
  key_created, key_exported, key_deleted, exchange_key_events, routing_key_key_created,
  routing_key_key_exported, routing_key_key_deleted,
}
use quantum_entropy_service.Keymanager.Model.{Bytes, QuantumData, RsaKey}
use quantum_entropy_service.Keymanager.Crypto.{Crypto}
use quantum_entropy_service.Keymanager.Service.{
  Service, Call, at_db, at_random, master_key, publish, check_pool_status, entropy_per_key,
  entropy_per_export,
}

abbrev pub key_not_found : GoError
key_not_found = message "key not found"

abbrev pub bad_key_size : GoError
bad_key_size = message "keySize must be 2048 or 4096"

-- A record that does not decode is skipped.
abbrev append_decoded : Bytes → Result Bytes → Bytes
append_decoded seed (ok b) = seed ++ b
append_decoded seed (err e) = seed

build_seed_from : (String → Result Bytes) → Bytes → List QuantumData → Bytes
build_seed_from decode seed [] = seed
build_seed_from decode seed (r ∷ records) =
    build_seed_from decode (append_decoded seed (decode r.data_base64)) records

unfoldable pub build_quantum_seed : (String → Result Bytes) → List QuantumData → Bytes
unfolding build_seed_from
build_quantum_seed decode records = build_seed_from decode [] records

abbrev pub is_key_size : ℕ → Bool
is_key_size key_size = key_size == 2048 || key_size == 4096

module _ {D B C : Type 0} (c : Crypto) (svc : Service D B C) where
  abbrev M : Type 0 → Type 0
  M = Call c svc

  -- The block cipher of the master key, as both helpers make it.
  unfoldable pub master_gcm : M c.Gcm
  master_gcm = do key ← master_key c svc; block ← lift (c.new_cipher key); lift (c.new_gcm block)

  unfoldable pub aes_gcm_encrypt : Bytes → M (Bytes × Bytes)
  unfolding master_gcm
  aes_gcm_encrypt plaintext = do
    gcm ← master_gcm
    nonce ← at_random c svc (c.read_full (c.nonce_size gcm))
    pure (c.seal gcm nonce plaintext, nonce)

  unfoldable pub aes_gcm_decrypt : (ciphertext nonce : Bytes) → M Bytes
  unfolding master_gcm
  aes_gcm_decrypt ciphertext nonce = do gcm ← master_gcm; lift (c.open_ gcm nonce ciphertext)

  -- `SaveKey` fills the ID and the creation time.
  abbrev pub new_key : String → ℕ → Bytes → Bytes × Bytes → RsaKey
  new_key alias key_size public_der (encrypted, nonce) = record {
    id = 0;
    created_at = 0;
    alias = alias;
    key_size = key_size;
    public_key_pem = c.public_pem public_der;
    encrypted_private_pem = encrypted;
    nonce = nonce;
  }

  unfoldable pub wrap_key : String → ℕ → c.PrivateKey → Bytes → M RsaKey
  wrap_key alias key_size private public_der = do
    let private_pem = c.private_pem (c.marshal_private private)
    sealed ← wrap "key wrapping failed" (aes_gcm_encrypt private_pem)
    pure (new_key alias key_size public_der sealed)

  -- From the entropy records to the key that is to be stored.
  unfoldable pub make_key : String → ℕ → List QuantumData → M RsaKey
  make_key alias key_size records = do
    let seed = build_quantum_seed c.decode records
    private ← wrap "RSA generation failed" (at_random c svc (c.generate_key seed key_size))
    public_der ← lift (c.marshal_public private)
    wrap_key alias key_size private public_der

  unfoldable pub generate_key : String → ℕ → M RsaKey
  unfolding make_key publish
  generate_key alias key_size = do
    guard (is_key_size key_size) bad_key_size
    records ← wrap "pool exhausted" (at_db c svc (svc.store.consume_entropy entropy_per_key))
    prepared ← make_key alias key_size records
    key ← wrap "failed to persist key" (at_db c svc (svc.keys.save_key prepared))
    publish c svc exchange_key_events routing_key_key_created (key_created key.id alias key_size)
    check_pool_status c svc
    pure key

  abbrev pub present : Option RsaKey → M RsaKey
  present none = fail key_not_found
  present (some key) = pure key

  unfoldable pub export_private_key : ℕ → M Bytes
  unfolding aes_gcm_decrypt publish
  export_private_key id = do
    found ← at_db c svc (svc.keys.find_key_by_id id)
    key ← present found
    _ ←
        wrap "pool exhausted for export"
          (at_db c svc (svc.store.consume_entropy entropy_per_export))
    private_pem ← wrap "key unwrapping failed" (aes_gcm_decrypt key.encrypted_private_pem key.nonce)
    publish c svc exchange_key_events routing_key_key_exported
        (key_exported id key.alias "AES-256-GCM")
    check_pool_status c svc
    pure private_pem

  unfoldable pub pool_status : M ℕ
  pool_status = at_db c svc svc.store.count_all_unused_entropy

  unfoldable pub delete_key : ℕ → M Done
  unfolding publish
  delete_key id = do
    found ← at_db c svc (svc.keys.find_key_by_id id)
    key ← present found
    at_db c svc (svc.keys.delete_key_by_id id)
    publish c svc exchange_key_events routing_key_key_deleted (key_deleted id key.alias)

  unfoldable pub announce_deleted : List RsaKey → M Done
  announce_deleted [] = pure tt
  announce_deleted (k ∷ keys) = do
    publish c svc exchange_key_events routing_key_key_deleted (key_deleted k.id k.alias)
    announce_deleted keys

  unfoldable pub delete_all_keys : M Done
  unfolding announce_deleted
  delete_all_keys = do
    keys ← at_db c svc svc.keys.find_all_keys
    at_db c svc svc.keys.delete_all_keys
    announce_deleted keys
