-- ===== src/Controllers.antt =====
-- The reconciler of controllers/managedocs_controller.go.
pub mod State
pub mod Actions
pub mod Effects
pub mod Slots
pub mod Init
pub mod Status
pub mod StorageCluster
pub mod Egress
pub mod Policies
pub mod Operators
pub mod ConfigMaps
pub mod Alerts
pub mod Prometheus
pub mod Monitoring
pub mod Removal
pub mod Phases
pub mod History
pub mod Lifecycle
pub mod Settles
pub mod Rbac
pub mod Predicates
pub mod Watches
