-- ===== src/Processors.antt =====
-- metrics/processors: the steps that a data batch goes through between the sources and the sinks.
pub mod Aggregate
pub mod Labels
pub mod Cluster
pub mod Node
pub mod Namespace
pub mod Rate
pub mod Pod
pub mod NamespaceEnricher
pub mod Autoscaling
pub mod PodEnricher
pub mod Sound
