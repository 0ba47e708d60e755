-- ===== src/Metrics.antt =====
-- The metrics (src/metrics).
pub mod Redaction
pub mod Aggregator
mod Tests
