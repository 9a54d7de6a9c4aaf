-- ===== src/Quantum.antt =====
-- The quantum API: internal/quantum.
pub mod Mixing
pub mod Permits
pub mod Service
