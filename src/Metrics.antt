-- ===== src/Metrics.antt =====
-- The package daemon/metrics/.
pub mod TopologyManager
pub mod Interfaces
