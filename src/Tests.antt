-- ===== src/Tests.antt =====
-- Instances of the theorems at concrete inputs.
mod Scene
mod Settles
mod Strict
mod Runs
mod History
mod Traffic
mod Start
mod Gatherer
mod Clusters
mod Parts
mod Prometheus
mod Lifecycle
mod Probe
mod LastRun
