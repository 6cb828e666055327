-- ===== src/Daemon.antt =====
-- The daemon (daemon/kubedtn/): its state and the calls on it.
pub mod State
pub mod Topologies
pub mod Alive
pub mod RemoteUpdate
pub mod AddLink
pub mod DelLink
pub mod Batches
pub mod Wires
pub mod Pods
pub mod Start
pub mod Interleaving
pub mod Valid
pub mod Main
