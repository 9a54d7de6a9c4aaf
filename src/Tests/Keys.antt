-- ===== src/Tests/Keys.antt =====
-- The key service over tables in memory, a toy cryptography and a publisher that records.
use quantum_entropy_service.Common.{
  ℕ, ◌+◌, ◌≡◌, refl, ap, is_ok, List, [], ◌∷◌, ◌++◌, length, drop, replicate, none, some, Bool,
  true, false, ok, arith,
}
use quantum_entropy_service.Messaging.Events.{Message, recorder, recorder-IsEventPublisher}
use quantum_entropy_service.Keymanager.Model.{Bytes, QuantumData, RsaKey}
use quantum_entropy_service.Keymanager.Stores.{IsEntropyStore, AreStores, Distinct, find_key}
use quantum_entropy_service.Keymanager.Repository.{
  entropy_store, key_store, count_all_unused_entropy,
}
use quantum_entropy_service.Keymanager.Repository.Memory.{
  Memory, memory, memory-IsGorm, memory-IsSeparate,
}
use quantum_entropy_service.Keymanager.Repository.Refine.{
  entropy_store-IsEntropyStore, key_store-IsKeyStore, repository-AreApart,
}
use quantum_entropy_service.Keymanager.Crypto.{Crypto, IsCrypto}
use quantum_entropy_service.Keymanager.Service.{World, Service, master_key, check_pool_status}
use quantum_entropy_service.Keymanager.Service.Keys.{
  generate_key, export_private_key, aes_gcm_encrypt, aes_gcm_decrypt,
}
use quantum_entropy_service.Keymanager.Service.Generate.{
  Stored, Spent, generate_key-Stored, generate_key-Spent,
}
use quantum_entropy_service.Keymanager.Service.Wrap.{aes_gcm_decrypt-encrypt}
use quantum_entropy_service.Keymanager.Service.Sealed.{AllSealed, generate_key-AllSealed}
use quantum_entropy_service.Keymanager.Service.Export.{
  Exported, export_private_key-Exported, export_private_key-Charged,
}
use quantum_entropy_service.Keymanager.Service.Notify.{Alerts, check_pool_status-Alerts}

abbrev pub row : ℕ → Bool → QuantumData
row i used = record { id = i; data_base64 = "AQ=="; used = used; source = "LFD" }

abbrev pub rows_of : Memory → List QuantumData
rows_of m = m.rows

abbrev pub keys_of : Memory → List RsaKey
keys_of m = m.keys

-- One record that is used, and eight that are not.
abbrev pub tables : Memory
tables = record {
  rows =
      row 1 true
      ∷ row 2 false
      ∷ row 3 false
      ∷ row 4 false
      ∷ row 5 false
      ∷ row 6 false
      ∷ row 7 false
      ∷ row 8 false
      ∷ row 9 false
      ∷ [];
  keys = [];
}

pub tables-Distinct : Distinct tables.rows
tables-Distinct = omega arith

abbrev pub stores : AreStores (entropy_store memory) (key_store memory) rows_of keys_of
stores = record {
  entropy = entropy_store-IsEntropyStore memory rows_of keys_of memory-IsGorm;
  vaulting = key_store-IsKeyStore memory rows_of keys_of memory-IsGorm;
  apart = repository-AreApart memory rows_of keys_of memory-IsSeparate;
}

entropy_store-IsEntropyStore_example : IsEntropyStore (entropy_store memory) rows_of
entropy_store-IsEntropyStore_example =
    entropy_store-IsEntropyStore memory rows_of keys_of memory-IsGorm

drop-append : (xs ys : Bytes) → drop (length xs) (xs ++ ys) ≡ ys
drop-append [] ys = refl
drop-append (x ∷ xs) ys = drop-append xs ys

-- Sealing puts the nonce in front.
abbrev pub toy : Crypto
toy = record {
  Random = ℕ;
  read_full = λ n r. (ok (replicate n r), r + 1);
  sum256 = λ b. b;
  Block = Bytes;
  Gcm = Bytes;
  new_cipher = ok;
  new_gcm = ok;
  nonce_size = λ g. 2;
  seal = λ g nonce plaintext. nonce ++ plaintext;
  open_ = λ g nonce ciphertext. ok (drop (length nonce) ciphertext);
  PrivateKey = Bytes;
  generate_key = λ seed bits r. (ok (bits ∷ r ∷ seed), r + 1);
  marshal_public = λ k. ok (length k ∷ []);
  marshal_private = λ k. k;
  public_pem = λ der. "PUBLIC KEY";
  private_pem = λ der. 0 ∷ der;
  encode = λ b. "AQ==";
  decode = λ s. ok (1 ∷ []);
}

pub toy-IsCrypto : IsCrypto toy
toy-IsCrypto = record { open-seal = λ g nonce plaintext. ap ok (drop-append nonce plaintext) }

-- The collector's end is the flag of the refill channel.
abbrev pub service : Service Memory (List Message) Bool
service = record {
  store = entropy_store memory;
  keys = key_store memory;
  publisher = some recorder;
  master_secret = 7 ∷ 9 ∷ [];
  on_pool_low = some (λ _. true);
}

abbrev pub start : World Memory (List Message) ℕ Bool
start = record { db = tables; broker = []; random = 40; collector = false; derived = none }

aes_gcm_decrypt-encrypt_example :
    (aes_gcm_decrypt toy service (40 ∷ 40 ∷ 1 ∷ 2 ∷ 3 ∷ []) (40 ∷ 40 ∷ []) start).0
    ≡ ok (1 ∷ 2 ∷ 3 ∷ [])
unfolding aes_gcm_encrypt master_key
aes_gcm_decrypt-encrypt_example =
    aes_gcm_decrypt-encrypt toy service toy-IsCrypto (1 ∷ 2 ∷ 3 ∷ []) (40 ∷ 40 ∷ 1 ∷ 2 ∷ 3 ∷ [])
      (40 ∷ 40 ∷ []) start (record start { random = 41; derived = some (7 ∷ 9 ∷ []) }) start tt tt
      refl

generate_key-Stored_example :
    let (r, w') = generate_key toy service "k" 2048 start in Stored "k" 2048 [] r w'.db.keys
generate_key-Stored_example = generate_key-Stored toy service rows_of keys_of stores "k" 2048 start

generate_key-Spent_example :
    let (r, w') = generate_key toy service "k" 2048 start in
    Spent 5 tables.rows (is_ok r) w'.db.rows
generate_key-Spent_example =
    generate_key-Spent toy service rows_of keys_of stores "k" 2048 start tables-Distinct

abbrev later : World Memory (List Message) ℕ Bool
later = (generate_key toy service "k" 2048 start).1

later-AllSealed : AllSealed toy service rows_of keys_of later
later-AllSealed =
    generate_key-AllSealed toy service rows_of keys_of toy-IsCrypto stores "k" 2048 start (tt, tt)

generate_key-AllSealed_example : AllSealed toy service rows_of keys_of later
generate_key-AllSealed_example =
    generate_key-AllSealed toy service rows_of keys_of toy-IsCrypto stores "k" 2048 start (tt, tt)

export_private_key-Exported_example :
    Exported toy service rows_of keys_of stores 1 later.db.keys
      (export_private_key toy service 1 later).0
export_private_key-Exported_example =
    export_private_key-Exported toy service rows_of keys_of stores 1 later later-AllSealed

abbrev one_key : World Memory (List Message) ℕ Bool
one_key = record start {
  db = record tables {
    keys =
        record {
          id = 1;
          created_at = 0;
          alias = "k";
          key_size = 2048;
          public_key_pem = "PUBLIC KEY";
          encrypted_private_pem = [];
          nonce = [];
        }
        ∷ [];
  };
}

export_private_key-Charged_example :
    let (r, w') = export_private_key toy service 1 one_key in
    Spent 2 tables.rows (is_ok r) w'.db.rows
unfolding find_key
export_private_key-Charged_example =
    export_private_key-Charged toy service rows_of keys_of stores 1 one_key tables-Distinct

check_pool_status-Alerts_example :
    Alerts toy service rows_of keys_of stores
      (λ sent. sent)
      recorder-IsEventPublisher
      (ok 8)
      8
      ([], false)
      (
        (check_pool_status toy service start).1.broker,
        (check_pool_status toy service start).1.collector,
      )
unfolding count_all_unused_entropy
check_pool_status-Alerts_example =
    check_pool_status-Alerts toy service rows_of keys_of stores (λ sent. sent)
      recorder-IsEventPublisher start
