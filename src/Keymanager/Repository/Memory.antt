-- ===== src/Keymanager/Repository/Memory.antt =====
-- Two tables in memory that meet the laws of GORM: they show that the laws can hold, and tests run
-- on them.
use quantum_entropy_service.Common.{
  ℕ, suc, ◌≡◌, ◌≤◌, ◌≢◌, refl, Bool, false, ◌||◌, str_eq, max, if◌then◌else◌, arith, List, [], ◌∷◌,
  ◌++◌, Option, none, some, filter, length, All, String, message, error_text, GoError, Result, ok,
  err, Action,
}
use quantum_entropy_service.Keymanager.Model.{QuantumData, RsaKey}
use quantum_entropy_service.Keymanager.Stores.{SavesKey, find_key, without_key}
use quantum_entropy_service.Keymanager.Repository.{Gorm}
use quantum_entropy_service.Keymanager.Repository.Laws.{
  IsGorm, IsSeparate, Commits, Firsts, limited, mark_where,
}

pub record Memory : Type 0 where
  pub rows : List QuantumData
  pub keys : List RsaKey

abbrev next_id : List QuantumData → ℕ
next_id [] = 1
next_id (q ∷ rows) = max (suc q.id) (next_id rows)

abbrev next_key_id : List RsaKey → ℕ
next_key_id [] = 1
next_key_id (k ∷ keys) = max (suc k.id) (next_key_id keys)

abbrev has_alias : String → List RsaKey → Bool
has_alias a [] = false
has_alias a (k ∷ keys) = str_eq k.alias a || has_alias a keys

abbrev create : QuantumData → Action Memory QuantumData
create q m =
    let q' = record q { id = next_id m.rows } in (ok q', record m { rows = m.rows ++ q' ∷ [] })

abbrev create_key : RsaKey → Action Memory RsaKey
create_key k m =
    let k' = record k { id = next_key_id m.keys } in
    if has_alias k.alias m.keys
    then (err (message "UNIQUE constraint failed: rsa_keys.alias"), m)
    else (ok k', record m { keys = m.keys ++ k' ∷ [] })

abbrev or_missing : Option RsaKey → Result RsaKey
or_missing none = err (message "record not found")
or_missing (some k) = ok k

abbrev settle : Memory → Result (List QuantumData) × Memory → Result (List QuantumData) × Memory
settle before (ok a, inside) = (ok a, inside)
settle before (err e, inside) = (err e, before)

abbrev is_record_not_found : GoError → Bool
is_record_not_found e = str_eq (error_text e) "record not found"

abbrev pub memory : Gorm Memory
memory = record {
  create = create;
  count = λ p m. (ok (length (filter p m.rows)), m);
  find = λ p limit m. (ok (limited limit (filter p m.rows)), m);
  update_used = λ p m. (ok tt, record m { rows = mark_where p m.rows });
  transaction = λ body m. settle m (body m);
  create_key = create_key;
  find_keys = λ m. (ok m.keys, m);
  first_key = λ id m. (or_missing (find_key id m.keys), m);
  is_record_not_found = is_record_not_found;
  delete_key = λ id m. (ok tt, record m { keys = without_key id m.keys });
  delete_keys = λ m. (ok tt, record m { keys = [] });
}

ids-lt-next_id : (n : ℕ) (rows : List QuantumData) → next_id rows ≤ n → All (λ r. r.id ≢ n) rows
ids-lt-next_id n [] h = tt
ids-lt-next_id n (q ∷ rows) h = (omega arith, ids-lt-next_id n rows (omega arith))

find_key-next : (n : ℕ) (keys : List RsaKey) → next_key_id keys ≤ n → find_key n keys ≡ none
unfolding find_key
find_key-next n [] h = refl
find_key-next n (k ∷ keys) h = ground (arith, find_key-next n keys)

settle-Commits :
    (m : Memory) (r : Result (List QuantumData)) (m₁ : Memory)
    → let (r', m') = settle m (r, m₁) in Commits r r' m.rows m₁.rows m'.rows
settle-Commits m (ok a) m₁ = (refl, refl)
settle-Commits m (err e) m₁ = (refl, refl)

create_key-SavesKey :
    (k : RsaKey) (m : Memory) → let (r, m') = create_key k m in SavesKey k m.keys r m'.keys
create_key-SavesKey k m = ground (arith, find_key-next (next_key_id m.keys) m.keys)

or_missing-Firsts :
    (o : Option RsaKey) (keys : List RsaKey) → Firsts is_record_not_found o keys (or_missing o) keys
or_missing-Firsts none keys = (λ _. refl, refl)
or_missing-Firsts (some k) keys = (refl, refl)

-- The laws assumed of GORM can hold.
pub memory-IsGorm : IsGorm memory (λ m. m.rows) (λ m. m.keys)
memory-IsGorm = record {
  creates = λ q m. (refl, refl, ids-lt-next_id (next_id m.rows) m.rows (omega arith));
  counts = λ p m. (refl, refl);
  finds = λ p limit m. (refl, refl);
  updates = λ p m. refl;
  commits = λ body m. settle-Commits m (body m).0 (body m).1;
  creates_key = create_key-SavesKey;
  lists_keys = λ m. (refl, refl);
  firsts = λ id m. or_missing-Firsts (find_key id m.keys) m.keys;
  deletes_key = λ id m. refl;
  clears = λ m. refl;
}

settle-keys :
    (m : Memory) (r : Result (List QuantumData)) (m₁ : Memory)
    → m₁.keys ≡ m.keys
    → (settle m (r, m₁)).1.keys ≡ m.keys
settle-keys m (ok a) m₁ h = h
settle-keys m (err e) m₁ h = refl

pub memory-IsSeparate : IsSeparate memory (λ m. m.rows) (λ m. m.keys)
memory-IsSeparate = record {
  vault-create = λ q m. refl;
  vault-count = λ p m. refl;
  vault-find = λ p limit m. refl;
  vault-update_used = λ p m. refl;
  vault-transaction = λ body m. settle-keys m (body m).0 (body m).1;
  pool-create_key = λ k m. ground arith;
  pool-find_keys = λ m. refl;
  pool-first_key = λ id m. refl;
  pool-delete_key = λ id m. refl;
  pool-delete_keys = λ m. refl;
}
