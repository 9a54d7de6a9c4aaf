-- ===== src/Keymanager/Service/Sealed.antt =====
-- Every key of the vault can be exported: its wrapped part opens under the service's master key.
use quantum_entropy_service.Common.{
  ℕ, ◌≡◌, sym, subst, inl, inr, Bool-cases, String, List, [], ◌∷◌, Result, ok, err, All, All-append,
  wrap_then, bind_then, lift, wrap, ◌>>=◌,
}
use quantum_entropy_service.Keymanager.Model.{QuantumData, RsaKey}
use quantum_entropy_service.Keymanager.Stores.{AreStores, SavesKey}
use quantum_entropy_service.Keymanager.Crypto.{Crypto, IsCrypto}
use quantum_entropy_service.Keymanager.Service.{World, Service, at_db, publish, entropy_per_key}
use quantum_entropy_service.Keymanager.Service.Keys.{is_key_size, make_key, generate_key}
use quantum_entropy_service.Keymanager.Service.Frames.{
  make_key-Keeps, check_pool_status-vault, check_pool_status-derived,
}
use quantum_entropy_service.Keymanager.Service.Generate.{
  finish, store_made, make_and_store, announced, finish-eq,
}
use quantum_entropy_service.Keymanager.Service.Wrap.{Cached, IsSealed, Seals, make_key-Seals}

module _ {D B C : Type 0} (c : Crypto) (svc : Service D B C) (pool : D → List QuantumData)
    (vault : D → List RsaKey) where
  -- All keys are sealed, and the cached master key is right.
  abbrev pub AllSealed : World D B c.Random C → Type 0
  AllSealed w = All (IsSealed c svc) (vault w.db) × Cached c svc w.derived

  module _ (crypto : IsCrypto c) (stores : AreStores svc.store svc.keys pool vault) where
    finish-AllSealed :
        (alias : String) (key_size : ℕ) (key : RsaKey) (w : World D B c.Random C)
        → AllSealed w
        → AllSealed (finish c svc pool vault stores alias key_size key w).1
    unfolding publish
    finish-AllSealed alias key_size key w h =
        let w₁ = announced c svc pool vault stores alias key_size key w in
        rw (finish-eq c svc pool vault stores alias key_size key w) (
          subst (All (IsSealed c svc))
              (sym ((check_pool_status-vault c svc pool vault stores).at w₁)) h.0,
          subst (Cached c svc) (sym ((check_pool_status-derived c svc).at w₁)) h.1,
        )

    after_save :
        (alias : String) (key_size : ℕ) (k : RsaKey) (before : List RsaKey) (r : Result RsaKey)
        (w : World D B c.Random C)
        → All (IsSealed c svc) before
        → Cached c svc w.derived
        → IsSealed c svc k
        → SavesKey k before r (vault w.db)
        → AllSealed
            ((wrap "failed to persist key" (lift r)
                >>= finish c svc pool vault stores alias key_size)
              w).1
    after_save alias key_size k before (ok key) w all cached sealed saved =
        finish-AllSealed alias key_size key w (
          rw saved.0 (
              All-append (IsSealed c svc) before (key ∷ []) all
                (subst (IsSealed c svc) (sym saved.1) sealed, tt)),
          cached,
        )
    after_save alias key_size k before (err e) w all cached sealed saved = (rw saved all, cached)

    make_and_store-AllSealed :
        (alias : String) (key_size : ℕ) (records : List QuantumData) (w : World D B c.Random C)
        → AllSealed w
        → AllSealed (make_and_store c svc pool vault stores alias key_size records w).1
    make_and_store-AllSealed alias key_size records w h =
        bind_then (λ r w'. (Seals c svc r × Cached c svc w'.derived) × (w'.db ≡ w.db))
          (λ r w'. AllSealed w') (make_key c svc alias key_size records)
          (store_made c svc pool vault stores alias key_size) w
          (
            make_key-Seals c svc crypto alias key_size records w h.1,
            (make_key-Keeps c svc alias key_size records).at w,
          )
          (λ e w' k. (rw k.1 h.0, k.0.1))
          (λ prepared w' k.
            let (r, db) = svc.keys.save_key prepared w'.db in
            after_save alias key_size prepared (vault w'.db) r (record w' { db = db })
              (subst (λ d. All (IsSealed c svc) (vault d)) (sym k.1) h.0) k.0.1 k.0.0
              (stores.vaulting.saves prepared w'.db))

    -- `GenerateKey`, on every path, keeps all keys of the vault exportable.
    pub generate_key-AllSealed :
        (alias : String) (key_size : ℕ) (w : World D B c.Random C)
        → AllSealed w
        → AllSealed (generate_key c svc alias key_size w).1
    unfolding generate_key
    generate_key-AllSealed alias key_size w h = elim (Bool-cases (is_key_size key_size)) [
      | inr bad ↦ rw bad h
      | inl good ↦ rw good (
          wrap_then (λ r w'. AllSealed w') (λ r w'. AllSealed w') "pool exhausted"
            (at_db c svc (svc.store.consume_entropy entropy_per_key))
            (make_and_store c svc pool vault stores alias key_size) w
            (rw (stores.apart.vault-consume_entropy entropy_per_key w.db) h.0, h.1) (λ e e' w₁ k. k)
            (λ records w₁ k. make_and_store-AllSealed alias key_size records w₁ k))
    ]
