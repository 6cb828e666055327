-- ===== src/Common.antt =====
-- The package common/: helpers that the daemon's parts share.
pub mod Context
pub mod Vni
pub mod Rate
pub mod Percent
pub mod Qdisc
pub mod Veth
pub mod Remote
pub mod MutexMap
