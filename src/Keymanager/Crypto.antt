-- ===== src/Keymanager/Crypto.antt =====
-- The cryptography and encodings that the key service calls. They are Go's standard library, so
-- they are parameters; `IsCrypto` states what the service relies on.
use quantum_entropy_service.Common.{ℕ, ◌≡◌, String, Result, ok, Action}
use quantum_entropy_service.Keymanager.Model.{Bytes}

pub record Crypto : Type 1 where
  -- crypto/rand.Reader, whose state is `Random`
  pub Random : Type 0
  pub read_full : ℕ → Action Random Bytes
  -- crypto/sha256
  pub sum256 : Bytes → Bytes
  -- crypto/aes and crypto/cipher
  pub Block : Type 0
  pub Gcm : Type 0
  pub new_cipher : Bytes → Result Block
  pub new_gcm : Block → Result Gcm
  pub nonce_size : Gcm → ℕ
  pub seal : Gcm → (nonce plaintext : Bytes) → Bytes
  pub open_ : Gcm → (nonce ciphertext : Bytes) → Result Bytes
  -- crypto/rsa, with the reader that `seed` makes (see XorReader), crypto/x509 and encoding/pem
  pub PrivateKey : Type 0
  pub generate_key : (seed : Bytes) (bits : ℕ) → Action Random PrivateKey
  pub marshal_public : PrivateKey → Result Bytes
  pub marshal_private : PrivateKey → Bytes
  pub public_pem : Bytes → String
  pub private_pem : Bytes → Bytes
  -- encoding/base64
  pub encode : Bytes → String
  pub decode : String → Result Bytes

-- What GCM seals under a nonce it opens under that nonce.
pub record IsCrypto (c : Crypto) : Type 0 where
  pub open-seal :
      (g : c.Gcm) (nonce plaintext : Bytes)
      → c.open_ g nonce (c.seal g nonce plaintext) ≡ ok plaintext
