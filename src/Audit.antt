-- ===== src/Audit.antt =====
-- The audits: internal/audit/service.go, suites.go, handler.go and validators. Floating-point numbers
-- are a parameter (Floats).
pub mod Floats
pub mod Suites
pub mod Samples
pub mod Runs
pub mod FanIn
pub mod Endpoint
pub mod Validators
