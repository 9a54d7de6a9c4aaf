-- ===== src/Ui/Keys.antt =====
-- The handlers of handler.go for the pool and the keys. A key size is what strconv.Atoi makes of the
-- form's field, an alias the field less the space around it; a negative key size is left out.
pub mod Vault
use quantum_entropy_service.Common.{
  ℕ, ◌*◌, ltb, String, List, [], ◌∷◌, map, if◌then◌else◌, Done, error_text, Result, ok, err,
}
use quantum_entropy_service.Keymanager.Model.{RsaKey}
use quantum_entropy_service.Keymanager.Crypto.{Crypto}
use quantum_entropy_service.Keymanager.Service.{Service, World, Call, at_db}
use quantum_entropy_service.Keymanager.Service.Keys.{
  export_private_key, delete_key, delete_all_keys,
}
use quantum_entropy_service.Keymanager.Service.Keys as Keys
use quantum_entropy_service.Keymanager.Handler.{default_size}
use quantum_entropy_service.Audit.Floats.{Floats, float}
use quantum_entropy_service.Ui.{
  KeyRow, Page, page, nothing, pool_card, empty_vault, keys_table, key_error, export_error,
  private_key,
}

abbrev pub pool_max : ℕ
pool_max = 1000

abbrev pub pool_color : ℕ → String
pool_color count =
    if ltb count 200
    then "#ff0050"
    else if ltb count 500
    then "var(--neon-yellow)"
    else "var(--neon-cyan)"

-- `count, _ :=`: the repository returns 0 with an error.
abbrev count_or_zero : Result ℕ → ℕ
count_or_zero (err e) = 0
count_or_zero (ok count) = count

abbrev pub key_row : RsaKey → KeyRow
key_row k = record { id = k.id; alias = k.alias; key_size = k.key_size; created_at = k.created_at }

abbrev pub keys_page : Result (List RsaKey) → Page
keys_page (err e) = page 200 empty_vault
keys_page (ok []) = page 200 empty_vault
keys_page (ok (k ∷ keys)) = page 200 (keys_table (map key_row (k ∷ keys)))

module _ {D B C : Type 0} (fl : Floats) (c : Crypto) (svc : Service D B C) where
  open fl use {div, mul, lit}

  abbrev pub Handled : Type 0
  Handled = World D B c.Random C → Page × World D B c.Random C

  abbrev pool_page : ℕ → Page
  pool_page count =
      let share = mul (div (float fl count) (float fl pool_max)) (lit 100 0) in
      page 200 (
        pool_card count pool_max (fl.truncated (fl.lesser share (lit 100 0))) (pool_color count)
          (fl.fixed 1 (div (mul (float fl count) (lit 256 0)) (lit 1024 0))))

  -- GET /ui/pool-status
  unfoldable pub pool_status : Handled
  pool_status w =
      let (r, w') = at_db c svc svc.store.count_all_unused_entropy w in
      (pool_page (count_or_zero r), w')

  -- GET /ui/keys
  unfoldable pub list_keys : Handled
  list_keys w = let (r, w') = at_db c svc svc.keys.find_all_keys w in (keys_page r, w')

  abbrev pub generated : Result RsaKey → Handled
  generated (err e) w = (page 503 (key_error (error_text e)), w)
  generated (ok key) w = list_keys w

  -- POST /ui/keys
  unfoldable pub generate_key : (alias : String) (key_size : ℕ) → Handled
  unfolding Keys.generate_key list_keys
  generate_key alias key_size w =
      let (r, w') = Keys.generate_key c svc alias (default_size key_size) w in generated r w'

  -- DELETE /ui/keys
  unfoldable pub delete_all : Handled
  unfolding delete_all_keys
  delete_all w = let (r, w') = delete_all_keys c svc w in (page 200 empty_vault, w')

  -- DELETE /ui/keys/:id
  unfoldable pub delete_one : Result ℕ → Handled
  unfolding delete_key
  delete_one (err e) w = (page 400 nothing, w)
  delete_one (ok id) w = let (r, w') = delete_key c svc id w in (page 200 nothing, w')

  abbrev export_page : Result (List ℕ) → Page
  export_page (err e) = page 200 (export_error (error_text e))
  export_page (ok pem) = page 200 (private_key pem)

  -- POST /ui/keys/:id/export
  unfoldable pub export_key : Result ℕ → Handled
  unfolding export_private_key
  export_key (err e) w = (page 400 nothing, w)
  export_key (ok id) w = let (r, w') = export_private_key c svc id w in (export_page r, w')
