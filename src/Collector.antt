-- ===== src/Collector.antt =====
-- The entropy collector: internal/collector.
pub mod Scheduler
