-- ===== src/Keymanager/Model.antt =====
-- internal/keymanager/model.go. Of `gorm.Model` the fields that the program reads are kept: `ID` in
-- both tables and `CreatedAt` of a key.
use quantum_entropy_service.Common.{ℕ, String, Bool, List}

abbrev pub Bytes : Type 0
Bytes = List ℕ

pub record QuantumData : Type 0 where
  pub id : ℕ
  pub data_base64 : String
  pub used : Bool
  pub source : String

pub record RsaKey : Type 0 where
  pub id : ℕ
  pub created_at : ℕ
  pub alias : String
  pub key_size : ℕ
  pub public_key_pem : String
  pub encrypted_private_pem : Bytes
  pub nonce : Bytes
