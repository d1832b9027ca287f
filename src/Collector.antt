-- ===== src/Collector.antt =====
-- The collector's worker: zimascoped/src/collector/health.rs and zimascoped/src/collector/mod.rs.
pub mod Health
pub mod Poll
pub mod Worker
pub mod Attachment
