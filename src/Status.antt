-- ===== src/Status.antt =====
-- The observed status of a VCluster: internal/controller/vcluster_status.go.
pub mod Observe
pub mod Aggregate
pub mod Ready
pub mod Stale
