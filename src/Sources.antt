-- ===== src/Sources.antt =====
-- metrics/sources: where the metric sets of a batch come from.
pub mod Stats
pub mod Summary
pub mod Nodes
pub mod Kubelet
pub mod Manager
