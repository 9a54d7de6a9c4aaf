-- ===== src/Keymanager/Service.antt =====
-- internal/keymanager/service.go, less the reader (XorReader). A method works on a `World`: the
-- store's tables, what the publisher works on, the source of randomness, what `OnPoolLow` works on,
-- and the service's own cached key. `nil` for `pub` and `OnPoolLow` is `none`. Log lines are left out.
pub mod Keys
pub mod Frames
pub mod Generate
pub mod Wrap
pub mod Sealed
pub mod Export
pub mod Notify
pub mod Kept
pub mod Invariant
use quantum_entropy_service.Common.{
  ℕ, ◌≡◌, Bool, true, false, ◌||◌, ◌==◌, ltb, leb, str_eq, if◌then◌else◌, List, [], ◌∷◌, ◌++◌,
  Option, none, some, String, Done, GoError, message, Action, Result, ok, err, pure, fail, lift,
  wrap, attempt, guard, continue, ◌>>=◌, ◌>>◌,
}
use quantum_entropy_service.Messaging.Events.{
  Event, key_created, key_exported, key_deleted, pool_low, EventPublisher, exchange_key_events,
  exchange_entropy_pool, routing_key_key_created, routing_key_key_exported, routing_key_key_deleted,
  routing_key_pool_low,
}
use quantum_entropy_service.Keymanager.Model.{Bytes, QuantumData, RsaKey}
use quantum_entropy_service.Keymanager.Stores.{EntropyStore, KeyStore}
use quantum_entropy_service.Keymanager.Crypto.{Crypto}

abbrev pub entropy_per_key : ℕ
entropy_per_key = 5

abbrev pub entropy_per_export : ℕ
entropy_per_export = 2

abbrev pub pool_low_threshold : ℕ
pool_low_threshold = 200

pub record World (D B R C : Type 0) : Type 0 where
  pub db : D
  pub broker : B
  pub random : R
  pub collector : C
  -- `key`, once `keyOnce` has fired
  pub derived : Option Bytes

-- The fields of `Service` that do not change. The secret is its bytes.
pub record Service (D B C : Type 0) : Type 0 where
  pub store : EntropyStore D
  pub keys : KeyStore D
  pub publisher : Option (EventPublisher B)
  pub master_secret : Bytes
  pub on_pool_low : Option (C → C)

abbrev secret_missing : GoError
secret_missing = message "MASTER_KEY_SECRET must not be empty"

unfoldable pub new_service :
    {D B C : Type 0}
    → EntropyStore D
    → KeyStore D
    → Bytes
    → Option (EventPublisher B)
    → Result (Service D B C)
new_service store keys [] publisher = err secret_missing
new_service store keys (b ∷ secret) publisher = ok (record {
  store = store;
  keys = keys;
  publisher = publisher;
  master_secret = b ∷ secret;
  on_pool_low = none;
})

abbrev pub notified : {B : Type 0} → Option (EventPublisher B) → String → String → Event → B → B
notified none exchange routing_key event b = b
notified (some p) exchange routing_key event b = (p.publish exchange routing_key event b).1

abbrev pub triggered : {C : Type 0} → Option (C → C) → C → C
triggered none x = x
triggered (some f) x = f x

-- A view of the tables, as a view of the world.
abbrev pub in_db : {D B R C X : Type 0} → (D → X) → World D B R C → X
in_db view w = view w.db

module _ {D B C : Type 0} (c : Crypto) (svc : Service D B C) where
  open c use {Random, Block, Gcm, PrivateKey}

  abbrev pub Call : Type 0 → Type 0
  Call A = Action (World D B Random C) A

  abbrev pub at_db : {A : Type 0} → Action D A → Call A
  at_db m w = let (r, db) = m w.db in (r, record w { db = db })

  abbrev pub at_random : {A : Type 0} → Action Random A → Call A
  at_random m w = let (r, random) = m w.random in (r, record w { random = random })

  abbrev once : Option Bytes → World D B Random C → Result Bytes × World D B Random C
  once none w = let hash = c.sum256 svc.master_secret in (ok hash, record w { derived = some hash })
  once (some key) w = (ok key, w)

  -- `keyOnce.Do`: the secret is hashed on first use
  unfoldable pub master_key : Call Bytes
  master_key w = once w.derived w

  -- `s.pub == nil` or the call of `Publish`, whose error is only logged
  abbrev notify : Option (EventPublisher B) → String → String → Event → Call Done
  notify p exchange routing_key event w =
      (ok tt, record w { broker = notified p exchange routing_key event w.broker })

  unfoldable pub publish : String → String → Event → Call Done
  publish exchange routing_key event = notify svc.publisher exchange routing_key event

  abbrev trigger : Option (C → C) → Call Done
  trigger f w = (ok tt, record w { collector = triggered f w.collector })

  abbrev announce : Result ℕ → Call Done
  announce (err e) = pure tt
  announce (ok count) = if leb pool_low_threshold count then pure tt else do
    trigger svc.on_pool_low
    notify svc.publisher exchange_entropy_pool routing_key_pool_low
        (pool_low count pool_low_threshold)

  unfoldable pub check_pool_status : Call Done
  check_pool_status = do count ← attempt (at_db svc.store.count_all_unused_entropy); announce count
