-- ===== src/Templates.antt =====
-- The templates of templates/, as values.
pub mod StorageClusters
pub mod Egress
pub mod NetworkPolicies
pub mod Prometheus
pub mod AlertmanagerConfig
pub mod Rules
