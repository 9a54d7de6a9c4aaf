-- ===== src/Keymanager/Service/Invariant.antt =====
-- What every operation on the stores keeps of the tables, every operation of the service keeps.
use quantum_entropy_service.Common.{
  ℕ, sym, subst, Option, none, some, String, Action, Keeps, preserves_then, pure, wrap, guard,
  ◌>>=◌, ◌>>◌, Bool, true, false, GoError, attempt,
}
use quantum_entropy_service.Messaging.Events.{
  key_created, key_exported, key_deleted, exchange_key_events, routing_key_key_created,
  routing_key_key_exported, routing_key_key_deleted, Event,
}
use quantum_entropy_service.Keymanager.Model.{RsaKey}
use quantum_entropy_service.Keymanager.Stores.History.{IsInvariant}
use quantum_entropy_service.Keymanager.Crypto.{Crypto}
use quantum_entropy_service.Keymanager.Service.{
  World, Service, Call, at_db, publish, check_pool_status, entropy_per_key, entropy_per_export,
}
use quantum_entropy_service.Keymanager.Service.Keys.{
  is_key_size, bad_key_size, generate_key, present, export_private_key, pool_status, delete_key,
  delete_all_keys,
}
use quantum_entropy_service.Keymanager.Service.Frames.{
  db_of, publish-Keeps, announce-Keeps, make_key-Keeps, aes_gcm_decrypt-Keeps,
  announce_deleted-Keeps,
}

module _ {D B C : Type 0} (c : Crypto) (svc : Service D B C) (P : D → Type 0)
    (inv : IsInvariant svc.store svc.keys P) where
  abbrev In : World D B c.Random C → Type 0
  In w = P w.db

  -- A call keeps the property.
  pub record Safe {A : Type 0} (m : Call c svc A) : Type 0 where
    pub at : (w : World D B c.Random C) → In w → In (m w).1

  kept : {A : Type 0} {m : Call c svc A} → Keeps (db_of c svc) m → Safe m
  kept k = record { at = λ w h. subst P (sym (k.at w)) h }

  bind-Safe :
      {A A' : Type 0} {m : Call c svc A} {k : A → Call c svc A'}
      → Safe m
      → ((a : A) → Safe (k a))
      → Safe (m >>= k)
  bind-Safe {m = m} {k = k} hm hk = record {
    at = λ w h. preserves_then In m k w (hm.at w h) (λ a. (hk a).at);
  }

  at_db-Safe : {A : Type 0} (m : Action D A) → ((d : D) → P d → P (m d).1) → Safe (at_db c svc m)
  at_db-Safe m h = record { at = λ w. h w.db }

  wrap-Safe : {A : Type 0} (text : String) {m : Call c svc A} → Safe m → Safe (wrap text m)
  wrap-Safe text h = record { at = h.at }

  attempt-Safe : {A : Type 0} {m : Call c svc A} → Safe m → Safe (attempt m)
  attempt-Safe h = record { at = h.at }

  pure-Safe : {A : Type 0} {a : A} → Safe (pure a)
  pure-Safe = record { at = λ w h. h }

  guard-Safe : (b : Bool) (e : GoError) → Safe (guard b e)
  guard-Safe true e = record { at = λ w h. h }
  guard-Safe false e = record { at = λ w h. h }

  present-Safe :
      {A : Type 0} (found : Option RsaKey) {k : RsaKey → Call c svc A}
      → ((key : RsaKey) → Safe (k key))
      → Safe (present c svc found >>= k)
  present-Safe none hk = record { at = λ w h. h }
  present-Safe (some key) hk = record { at = (hk key).at }

  check_pool_status-Safe : Safe (check_pool_status c svc)
  unfolding check_pool_status
  check_pool_status-Safe =
      bind-Safe (attempt-Safe (at_db-Safe svc.store.count_all_unused_entropy inv.counts))
        (λ r. kept (announce-Keeps c svc r))

  -- What comes after the last write: an event, the check of the pool, and the result.
  told-Safe :
      {A : Type 0} (exchange routing_key : String) (event : Event) (a : A)
      → Safe (do publish c svc exchange routing_key event; check_pool_status c svc; pure a)
  told-Safe exchange routing_key event a =
      bind-Safe (kept (publish-Keeps c svc exchange routing_key event))
        λ _. bind-Safe check_pool_status-Safe (λ _. pure-Safe)

  pub generate_key-Safe : (alias : String) (key_size : ℕ) → Safe (generate_key c svc alias key_size)
  unfolding generate_key
  generate_key-Safe alias key_size = bind-Safe (guard-Safe (is_key_size key_size) bad_key_size) λ _.
      bind-Safe
        (wrap-Safe "pool exhausted"
          (at_db-Safe (svc.store.consume_entropy entropy_per_key) (inv.consumes entropy_per_key)))
        λ records. bind-Safe (kept (make_key-Keeps c svc alias key_size records)) λ prepared.
          bind-Safe
            (wrap-Safe "failed to persist key"
              (at_db-Safe (svc.keys.save_key prepared) (inv.saves_key prepared)))
            λ key.
              told-Safe exchange_key_events routing_key_key_created
                (key_created key.id alias key_size) key

  pub export_private_key-Safe : (id : ℕ) → Safe (export_private_key c svc id)
  unfolding export_private_key
  export_private_key-Safe id =
      bind-Safe (at_db-Safe (svc.keys.find_key_by_id id) (inv.finds_key id)) λ found.
        present-Safe found λ key.
          bind-Safe
            (wrap-Safe "pool exhausted for export" (
              at_db-Safe (svc.store.consume_entropy entropy_per_export)
                (inv.consumes entropy_per_export)))
            λ _.
              bind-Safe
                (wrap-Safe "key unwrapping failed"
                  (kept (aes_gcm_decrypt-Keeps c svc key.encrypted_private_pem key.nonce)))
                λ pem.
                  told-Safe exchange_key_events routing_key_key_exported
                    (key_exported id key.alias "AES-256-GCM") pem

  pub delete_key-Safe : (id : ℕ) → Safe (delete_key c svc id)
  unfolding delete_key
  delete_key-Safe id =
      bind-Safe (at_db-Safe (svc.keys.find_key_by_id id) (inv.finds_key id)) λ found.
        present-Safe found λ key.
          bind-Safe (at_db-Safe (svc.keys.delete_key_by_id id) (inv.deletes_key id)) (λ _. kept (
            publish-Keeps c svc exchange_key_events routing_key_key_deleted
              (key_deleted id key.alias)))

  pub find_all_keys-Safe : Safe (at_db c svc svc.keys.find_all_keys)
  find_all_keys-Safe = at_db-Safe svc.keys.find_all_keys inv.lists_keys

  pub delete_all_keys-Safe : Safe (delete_all_keys c svc)
  unfolding delete_all_keys
  delete_all_keys-Safe = bind-Safe find_all_keys-Safe λ keys.
      bind-Safe (at_db-Safe svc.keys.delete_all_keys inv.clears_keys)
        (λ _. kept (announce_deleted-Keeps c svc keys))

  pub pool_status-Safe : Safe (pool_status c svc)
  unfolding pool_status
  pool_status-Safe = at_db-Safe svc.store.count_all_unused_entropy inv.counts
