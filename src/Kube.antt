-- ===== src/Kube.antt =====
-- Objects of the Kubernetes API as far as the program reads and writes them, errors, and what the
-- program calls of other projects.
pub mod Exec
pub mod Keeps
pub mod Succeeds
pub mod Storage
pub mod Network
pub mod Monitoring
pub mod Workload
pub mod Object
pub mod Env
