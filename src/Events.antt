-- ===== src/Events.antt =====
-- events: the eventer, which reads the events of Kubernetes and hands them to its sinks.
pub mod Source
pub mod Manager
