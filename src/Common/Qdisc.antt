-- ===== src/Common/Qdisc.antt =====
-- The queueing disciplines of a link (common/qdisc.go).
pub mod Burst
pub mod Make
pub mod Apply
