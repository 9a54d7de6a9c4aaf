-- ===== src/Server.antt =====
-- The server: internal/middleware/recovery.go, and the commands of cmd.
pub mod Recovery
pub mod Boot
pub mod Shutdown
pub mod Routes
pub mod Pipeline
pub mod System
