-- ===== src/Sinks.antt =====
-- metrics/sinks: where data batches go.
pub mod Metric
pub mod Manager
