-- ===== src/Keymanager/Service/Frames.antt =====
-- What the parts of the service's operations leave alone.
use quantum_entropy_service.Common.{
  ℕ, ◌≡◌, refl, leb, String, List, [], ◌∷◌, Option, none, some, Result, ok, err, Action, arith,
  Keeps, keeps, Keeps-bind, Keeps-view, Keeps-if, Keeps-pure, attempt,
}
use quantum_entropy_service.Messaging.Events.{Event}
use quantum_entropy_service.Keymanager.Model.{Bytes, QuantumData, RsaKey}
use quantum_entropy_service.Keymanager.Stores.{AreStores}
use quantum_entropy_service.Keymanager.Crypto.{Crypto}
use quantum_entropy_service.Keymanager.Service.{
  World, Service, at_db, at_random, once, master_key, in_db, publish, announce, check_pool_status,
  pool_low_threshold,
}
use quantum_entropy_service.Keymanager.Service.Keys.{
  aes_gcm_encrypt, aes_gcm_decrypt, wrap_key, make_key, announce_deleted,
}

module _ {D B C : Type 0} (c : Crypto) (svc : Service D B C) where
  abbrev pub db_of : World D B c.Random C → D
  db_of w = w.db

  once-Keeps : (o : Option Bytes) (w : World D B c.Random C) → (once c svc o w).1.db ≡ w.db
  once-Keeps none w = refl
  once-Keeps (some key) w = refl

  master_key-Keeps : Keeps db_of (master_key c svc)
  unfolding master_key
  master_key-Keeps = record { at = λ w. once-Keeps w.derived w }

  at_random-Keeps : {A : Type 0} (m : Action c.Random A) → Keeps db_of (at_random c svc m)
  at_random-Keeps m = record { at = λ w. refl }

  pub publish-Keeps :
      (exchange routing_key : String) (event : Event)
      → Keeps db_of (publish c svc exchange routing_key event)
  unfolding publish
  publish-Keeps exchange routing_key event = record { at = λ w. refl }

  pub announce-Keeps : (r : Result ℕ) → Keeps db_of (announce c svc r)
  announce-Keeps (err e) = search keeps
  announce-Keeps (ok count) =
      Keeps-if (leb pool_low_threshold count) _ _ (Keeps-pure tt) (record { at = λ w. refl })

  aes_gcm_encrypt-Keeps : (plaintext : Bytes) → Keeps db_of (aes_gcm_encrypt c svc plaintext)
  unfolding aes_gcm_encrypt
  aes_gcm_encrypt-Keeps plaintext = search (keeps, master_key-Keeps, at_random-Keeps) depth 7

  wrap_key-Keeps :
      (alias : String) (key_size : ℕ) (private : c.PrivateKey) (public_der : Bytes)
      → Keeps db_of (wrap_key c svc alias key_size private public_der)
  unfolding wrap_key
  wrap_key-Keeps alias key_size private public_der = search (keeps, aes_gcm_encrypt-Keeps)

  pub make_key-Keeps :
      (alias : String) (key_size : ℕ) (records : List QuantumData)
      → Keeps db_of (make_key c svc alias key_size records)
  unfolding make_key
  make_key-Keeps alias key_size records = search (keeps, wrap_key-Keeps, at_random-Keeps) depth 7

  pub aes_gcm_decrypt-Keeps :
      (ciphertext nonce : Bytes) → Keeps db_of (aes_gcm_decrypt c svc ciphertext nonce)
  unfolding aes_gcm_decrypt
  aes_gcm_decrypt-Keeps ciphertext nonce = search (keeps, master_key-Keeps) depth 7

  pub announce_deleted-Keeps : (keys : List RsaKey) → Keeps db_of (announce_deleted c svc keys)
  unfolding announce_deleted
  announce_deleted-Keeps [] = search keeps
  announce_deleted-Keeps (k ∷ keys) =
      Keeps-bind _ _ (publish-Keeps _ _ _) (λ _. announce_deleted-Keeps keys)

module _ {D B C : Type 0} (c : Crypto) (svc : Service D B C) (pool : D → List QuantumData)
    (vault : D → List RsaKey) (stores : AreStores svc.store svc.keys pool vault) where
  count_keeps_pool : (d : D) → pool (svc.store.count_all_unused_entropy d).1 ≡ pool d
  count_keeps_pool d = ground (arith, stores.entropy.counts d)

  -- Looking at the pool, and telling others of it, changes neither table.
  pub check_pool_status-pool : Keeps (in_db pool) (check_pool_status c svc)
  unfolding check_pool_status
  check_pool_status-pool =
      Keeps-bind (attempt (at_db c svc svc.store.count_all_unused_entropy)) _
        (record { at = λ w. count_keeps_pool w.db }) (λ r. Keeps-view pool (announce-Keeps c svc r))

  pub check_pool_status-vault : Keeps (in_db vault) (check_pool_status c svc)
  unfolding check_pool_status
  check_pool_status-vault =
      Keeps-bind (attempt (at_db c svc svc.store.count_all_unused_entropy)) _
        (record { at = λ w. stores.apart.vault-count w.db })
        (λ r. Keeps-view vault (announce-Keeps c svc r))

  -- No failure is reported.
  pub check_pool_status-ok : (w : World D B c.Random C) → (check_pool_status c svc w).0 ≡ ok tt
  unfolding check_pool_status
  check_pool_status-ok w = ground arith

module _ {D B C : Type 0} (c : Crypto) (svc : Service D B C) where
  abbrev pub derived_of : World D B c.Random C → Option Bytes
  derived_of w = w.derived

  pub check_pool_status-derived : Keeps derived_of (check_pool_status c svc)
  unfolding check_pool_status
  check_pool_status-derived =
      Keeps-bind (attempt (at_db c svc svc.store.count_all_unused_entropy)) _
        (record { at = λ w. refl }) announce-derived
    where
      announce-derived : (r : Result ℕ) → Keeps derived_of (announce c svc r)
      announce-derived (err e) = record { at = λ w. refl }
      announce-derived (ok count) =
          Keeps-if (leb pool_low_threshold count) _ _ (Keeps-pure tt) (record { at = λ w. refl })
