-- ===== src/Core/Metrics.antt =====
-- metrics/core/metrics.go: the metrics, their tables, and the tests on their names.
pub mod Defs
pub mod Standard
pub mod Derived
pub mod Labeled
pub mod Tables
pub mod Families
