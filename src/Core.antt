-- ===== src/Core.antt =====
-- The data model of metrics/core: values, metric sets and batches, keys, labels and the metrics.
pub mod Values
pub mod Keys
pub mod Keyed
pub mod Labels
pub mod Cadvisor
pub mod Metrics
