-- ===== src/Keymanager/Handler/Statuses.antt =====
-- Which status an exhausted pool or an absent key has.
use quantum_entropy_service.Common.{ℕ, ◌≡◌, true, none, ok, err}
use quantum_entropy_service.Keymanager.Crypto.{Crypto}
use quantum_entropy_service.Keymanager.Repository.{insufficient}
use quantum_entropy_service.Keymanager.Service.{Service, World, entropy_per_key}
use quantum_entropy_service.Keymanager.Service.Keys.{
  generate_key, export_private_key, delete_key, is_key_size,
}
use quantum_entropy_service.Keymanager.Handler.{
  GenerateRequest, answer, error, default_size, handle_generate, handle_export, handle_delete,
}

module _ {D B C : Type 0} (c : Crypto) (svc : Service D B C) where
  -- A request for a key of a right size on a pool that has too few records is answered 503 with the
  -- text of the error, and only the store has been called.
  pub handle_generate-exhausted :
      (req : GenerateRequest) (w : World D B c.Random C) (db : D)
      → is_key_size (default_size req.key_size) ≡ true
      → svc.store.consume_entropy entropy_per_key w.db ≡ (err insufficient, db)
      → handle_generate c svc (ok req) w
        ≡ (answer 503 (error "pool exhausted: insufficient entropy in pool"), record w { db = db })
  unfolding handle_generate generate_key
  handle_generate-exhausted req w db h e = simp (h, e)

  -- An absent key is answered 404 by both the deletion and the export, and nothing but the lookup has
  -- been done: no entropy is used and no event published.
  pub handle_absent :
      (id : ℕ) (w : World D B c.Random C) (db : D)
      → svc.keys.find_key_by_id id w.db ≡ (ok none, db)
      → (handle_delete c svc (ok id) w ≡ (answer 404 (error "key not found"), record w { db = db }))
        × (handle_export c svc (ok id) w
            ≡ (answer 404 (error "key not found"), record w { db = db }))
  unfolding handle_delete handle_export delete_key export_private_key
  handle_absent id w db f = (simp (f), simp (f))
