-- ===== src/Keymanager/Service/Notify.antt =====
-- What the service tells the broker and the collector, and what the deletions do.
use quantum_entropy_service.Common.{
  ℕ, ◌≡◌, ◌≤◌, ◌<◌, refl, sym, ap, subst, ◌∙◌, List, [], ◌∷◌, ◌++◌, map, append-nil, append_assoc,
  Option, some, none, Result, ok, err, Done, String, arith, length, bind_then, lift, ◌>>=◌, ◌>>◌,
}
use quantum_entropy_service.Messaging.Events.{
  Event, Message, EventPublisher, IsEventPublisher, key_deleted, pool_low, exchange_key_events,
  exchange_entropy_pool, routing_key_key_deleted, routing_key_pool_low,
}
use quantum_entropy_service.Keymanager.Model.{QuantumData, RsaKey}
use quantum_entropy_service.Keymanager.Stores.{AreStores, Reads, ReadsKeys, Writes, unused}
use quantum_entropy_service.Keymanager.Crypto.{Crypto}
use quantum_entropy_service.Keymanager.Service.{
  World, Service, notified, triggered, at_db, publish, check_pool_status, announce,
  pool_low_threshold,
}
use quantum_entropy_service.Keymanager.Service.Keys.{announce_deleted, delete_all_keys}

-- The messages of a publisher that may be `nil`, which sends none.
abbrev pub sent : {B : Type 0} → Option (EventPublisher B) → List Message → List Message
sent none messages = []
sent (some p) messages = messages

abbrev pub Publishes : {B : Type 0} → Option (EventPublisher B) → (B → List Message) → Type 0
Publishes none attempts = Unit {0}
Publishes (some p) attempts = IsEventPublisher p attempts

abbrev pub deleted_message : RsaKey → Message
deleted_message k = record {
  exchange = exchange_key_events;
  routing_key = routing_key_key_deleted;
  event = key_deleted k.id k.alias;
}

abbrev pub low_message : ℕ → Message
low_message count = record {
  exchange = exchange_entropy_pool;
  routing_key = routing_key_pool_low;
  event = pool_low count pool_low_threshold;
}

attempts-notified :
    {B : Type 0} (o : Option (EventPublisher B)) (attempts : B → List Message)
    (exchange routing_key : String) (event : Event) (b : B)
    → Publishes o attempts
    → attempts (notified o exchange routing_key event b)
      ≡ attempts b
        ++ sent o (record { exchange = exchange; routing_key = routing_key; event = event } ∷ [])
attempts-notified none attempts exchange routing_key event b h = sym (append-nil (attempts b))
attempts-notified (some p) attempts exchange routing_key event b h =
    h.publishes exchange routing_key event b

sent-append :
    {B : Type 0} (o : Option (EventPublisher B)) (xs ys : List Message)
    → sent o xs ++ sent o ys ≡ sent o (xs ++ ys)
sent-append none xs ys = refl
sent-append (some p) xs ys = refl

module _ {D B C : Type 0} (c : Crypto) (svc : Service D B C) (pool : D → List QuantumData)
    (vault : D → List RsaKey) (stores : AreStores svc.store svc.keys pool vault)
    (attempts : B → List Message) (publishes : Publishes svc.publisher attempts) where
  -- What happens outside the tables when the pool is looked at.
  abbrev pub Alerts : Result ℕ → ℕ → B × C → B × C → Type 0
  Alerts (err e) count (b, x) (b', x') = (b' ≡ b) × (x' ≡ x)
  Alerts (ok n) count (b, x) (b', x') =
      (n ≡ count)
      × (pool_low_threshold ≤ count → (b' ≡ b) × (x' ≡ x))
      × (count < pool_low_threshold
          → (attempts b' ≡ attempts b ++ sent svc.publisher (low_message count ∷ []))
            × (x' ≡ triggered svc.on_pool_low x))

  abbrev pub outside : World D B c.Random C → B × C
  outside w = (w.broker, w.collector)

  announce-Alerts :
      (r : Result ℕ) (before after : List QuantumData) (w : World D B c.Random C)
      → Reads (length (unused before)) before r after
      → Alerts r (length (unused before)) (outside w) (outside (announce c svc r w).1)
  announce-Alerts (err e) before after w h = (refl, refl)
  announce-Alerts (ok n) before after w h = rw h.0 (
      ground (
        arith,
        attempts-notified svc.publisher attempts exchange_entropy_pool routing_key_pool_low
            (pool_low (length (unused before)) pool_low_threshold) w.broker publishes,
      ))

  -- A refill is triggered and pool.low is published, with the number of unused records, exactly when
  -- that number could be read and is below 200. Otherwise neither broker nor collector is touched.
  pub check_pool_status-Alerts :
      (w : World D B c.Random C)
      → Alerts
          (svc.store.count_all_unused_entropy w.db).0
          (length (unused (pool w.db)))
          (outside w)
          (outside (check_pool_status c svc w).1)
  unfolding check_pool_status
  check_pool_status-Alerts w =
      let (r, db) = svc.store.count_all_unused_entropy w.db in
      announce-Alerts r (pool w.db) (pool db) (record w { db = db }) (stores.entropy.counts w.db)

  -- One key.deleted message for each key, in order.
  announce_deleted-attempts :
      (keys : List RsaKey) (w : World D B c.Random C)
      → let (r, w') = announce_deleted c svc keys w in
        (r ≡ ok tt)
        × (attempts w'.broker ≡ attempts w.broker ++ sent svc.publisher (map deleted_message keys))
        × (w'.db ≡ w.db)
  unfolding announce_deleted publish
  announce_deleted-attempts [] w = (refl, nothing svc.publisher, refl)
    where
      nothing : (o : Option (EventPublisher B)) → attempts w.broker ≡ attempts w.broker ++ sent o []
      nothing none = sym (append-nil (attempts w.broker))
      nothing (some p) = sym (append-nil (attempts w.broker))
  announce_deleted-attempts (k ∷ keys) w =
      let w₁ =
        (publish c svc exchange_key_events routing_key_key_deleted (key_deleted k.id k.alias)
          w).1 in
      let (done, more, same) = announce_deleted-attempts keys w₁ in
      (
        done,
        more
            ∙ ap (λ xs. xs ++ sent svc.publisher (map deleted_message keys))
                (attempts-notified svc.publisher attempts exchange_key_events
                  routing_key_key_deleted (key_deleted k.id k.alias) w.broker publishes)
            ∙ append_assoc (attempts w.broker) (sent svc.publisher (deleted_message k ∷ []))
                (sent svc.publisher (map deleted_message keys))
            ∙ ap (λ xs. attempts w.broker ++ xs)
                (sent-append svc.publisher (deleted_message k ∷ []) (map deleted_message keys)),
        same,
      )

  -- The vault and the messages before and after a deletion that should leave `target`.
  abbrev pub Deleted :
      List RsaKey
      → List Message
      → List RsaKey
      → List Message
      → Result Done
      → List RsaKey
      → List Message
      → Type 0
  Deleted target news keys messages (ok _) keys' messages' =
      (keys' ≡ target) × (messages' ≡ messages ++ sent svc.publisher news)
  Deleted target news keys messages (err e) keys' messages' =
      (keys' ≡ keys) × (messages' ≡ messages)

  announce_after :
      (keys : List RsaKey) (messages : List Message) (r : Result Done) (w : World D B c.Random C)
      → Writes [] keys r (vault w.db)
      → attempts w.broker ≡ messages
      → let (r', w') = (lift r >>= λ _. announce_deleted c svc keys) w in
        Deleted [] (map deleted_message keys) keys messages r' (vault w'.db) (attempts w'.broker)
  announce_after keys messages (ok _) w h e =
      let (done, more, same) = announce_deleted-attempts keys w in
      rw done
        (ap vault same ∙ h, more ∙ ap (λ xs. xs ++ sent svc.publisher (map deleted_message keys)) e)
  announce_after keys messages (err e) w h e' = (h, e')

  -- `DeleteAllKeys` empties the vault and publishes one key.deleted for each key that was in it, in
  -- the order of the table; if it fails, the vault is unchanged and nothing is published.
  pub delete_all_keys-Deleted :
      (w : World D B c.Random C)
      → let (r, w') = delete_all_keys c svc w in
        Deleted []
          (map deleted_message (vault w.db))
          (vault w.db)
          (attempts w.broker)
          r
          (vault w'.db)
          (attempts w'.broker)
  unfolding delete_all_keys
  delete_all_keys-Deleted w =
      bind_then
        (λ r w'. ReadsKeys (vault w.db) (vault w.db) r (vault w'.db) × (w'.broker ≡ w.broker))
        (λ r w'.
          Deleted [] (map deleted_message (vault w.db)) (vault w.db) (attempts w.broker) r
            (vault w'.db) (attempts w'.broker))
        (at_db c svc svc.keys.find_all_keys)
        (λ keys. do at_db c svc svc.keys.delete_all_keys; announce_deleted c svc keys) w
        (stores.vaulting.lists w.db, refl) (λ e w' h. (h.0, ap attempts h.1))
        (λ keys w' h. rw h.0.0 (
          let (r, db) = svc.keys.delete_all_keys w'.db in
          announce_after (vault w.db) (attempts w.broker) r (record w' { db = db })
            (subst (λ ks. Writes [] ks r (vault db)) h.0.1 (stores.vaulting.clears w'.db))
            (ap attempts h.1)))
