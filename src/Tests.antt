-- ===== src/Tests.antt =====
-- A small node and cluster, on which the theorems are tried.
pub mod Lab
pub mod Controller
pub mod Network
pub mod Daemon
pub mod Wires
pub mod Nodes
pub mod Boot
pub mod Files
pub mod Memory
pub mod Together
pub mod Wired
pub mod Hosts
