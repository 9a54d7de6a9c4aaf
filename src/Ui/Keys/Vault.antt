-- ===== src/Ui/Keys/Vault.antt =====
-- What the pages about keys show of the vault.
use quantum_entropy_service.Common.{
  ℕ, ◌≡◌, ◌⊎◌, inl, inr, refl, sym, ap, ◌∙◌, String, List, [], ◌∷◌, ◌++◌, map, GoError, Result, ok,
  err, error_text, arith,
}
use quantum_entropy_service.Keymanager.Model.{QuantumData, RsaKey}
use quantum_entropy_service.Keymanager.Stores.{KeyStore, AreStores, ReadsKeys}
use quantum_entropy_service.Keymanager.Crypto.{Crypto}
use quantum_entropy_service.Keymanager.Handler.{default_size}
use quantum_entropy_service.Keymanager.Service.{Service, World}
use quantum_entropy_service.Keymanager.Service.Keys as Keys
use quantum_entropy_service.Keymanager.Service.Generate.{Stored, generate_key-Stored}
use quantum_entropy_service.Audit.Floats.{Floats}
use quantum_entropy_service.Ui.{KeyRow, Page, page, key_error, empty_vault, keys_table}
use quantum_entropy_service.Ui.Keys.{keys_page, list_keys, generated, generate_key}

-- What a row of the table of keys shows: the ID, the alias, the size and the time of creation.
abbrev row_of : RsaKey → KeyRow
row_of k = record { id = k.id; alias = k.alias; key_size = k.key_size; created_at = k.created_at }

module _ {D : Type 0} (store : KeyStore D) where
  -- The page of a vault that is not empty: its keys in their order; only if they could not be read,
  -- that there are none.
  abbrev pub Lists : (db : D) → List RsaKey → Page → Type 0
  Lists db keys p =
      (p ≡ page 200 (keys_table (map row_of keys)))
      ⊎ ((e : GoError) × ((store.find_all_keys db).0 ≡ err e) × (p ≡ page 200 empty_vault))

  -- The page after a request for a key, by what the service returned, and the vault before and after;
  -- `db` are the tables as the service left them.
  abbrev pub Added :
      (alias : String) (key_size : ℕ) (before after : List RsaKey) (db : D)
      → Result RsaKey
      → Page
      → Type 0
  Added alias key_size before after db (err e) p =
      (p ≡ page 503 (key_error (error_text e))) × (after ≡ before)
  Added alias key_size before after db (ok key) p =
      (after ≡ before ++ key ∷ [])
      × (key.alias ≡ alias)
      × (key.key_size ≡ key_size)
      × Lists db after p

  one_more : (before : List RsaKey) (key : RsaKey) → before ++ key ∷ [] ≡ [] → ⊥
  one_more [] key e = ground (arith, e)
  one_more (k ∷ before) key e = ground (arith, e)

  keys_page-Lists :
      (db : D) (keys after : List RsaKey) (r : Result (List RsaKey))
      → (keys ≡ [] → ⊥)
      → (store.find_all_keys db).0 ≡ r
      → ReadsKeys keys keys r after
      → Lists db after (keys_page r) × (after ≡ keys)
  keys_page-Lists db keys after (err e) n f h = (inr (e, f, refl), h)
  keys_page-Lists db keys after (ok []) n f h = elim (n (sym h.0)) [ ]
  keys_page-Lists db keys after (ok (k ∷ ks)) n f h =
      (inl (ap (λ l. page 200 (keys_table (map row_of l))) (h.0 ∙ sym h.1)), h.1)

module _ {D B C : Type 0} (fl : Floats) (c : Crypto) (svc : Service D B C)
    (pool : D → List QuantumData) (vault : D → List RsaKey)
    (stores : AreStores svc.store svc.keys pool vault) where
  generated-Added :
      (alias : String) (key_size : ℕ) (before : List RsaKey) (r : Result RsaKey)
      (w : World D B c.Random C)
      → Stored alias key_size before r (vault w.db)
      → let (p, w') = generated fl c svc r w in
        Added svc.keys alias key_size before (vault w'.db) w.db r p
  unfolding list_keys
  generated-Added alias key_size before (err e) w h = (refl, h)
  generated-Added alias key_size before (ok key) w h =
      let (added, alias_is, size_is, _) = h in
      let (shown, same) =
        keys_page-Lists svc.keys w.db (vault w.db) _ _
          (λ e. one_more svc.keys before key (sym added ∙ e)) refl (stores.vaulting.lists w.db) in
      (same ∙ added, alias_is, size_is, shown)

  -- Of stores with their laws: where the service gives an error, the page has status 503 and its text,
  -- and the vault is as it was; where it gives a key, this has the alias and the size asked for (2048
  -- for none), it is the last of the vault and the others are as they were, and the page has a row
  -- for each key of the vault, in their order, or, only if the keys could not be read after that, says
  -- that there are none.
  pub generate_key-Added :
      (alias : String) (key_size : ℕ) (w : World D B c.Random C)
      → let (r, w₁) = Keys.generate_key c svc alias (default_size key_size) w in
        let (p, w') = generate_key fl c svc alias key_size w in
        Added svc.keys alias (default_size key_size) (vault w.db) (vault w'.db) w₁.db r p
  unfolding generate_key
  generate_key-Added alias key_size w =
      let size = default_size key_size in
      let (r, w') = Keys.generate_key c svc alias size w in
      generated-Added alias size (vault w.db) r w'
        (generate_key-Stored c svc pool vault stores alias size w)
