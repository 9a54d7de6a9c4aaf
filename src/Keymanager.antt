-- ===== src/Keymanager.antt =====
-- The package internal/keymanager: the two tables (Model), the store interfaces (Stores), their
-- implementation over GORM (Repository), the key service, its REST handlers and the seeded reader.
pub mod Model
pub mod Stores
pub mod Repository
pub mod Crypto
pub mod Service
pub mod Handler
pub mod Reader
