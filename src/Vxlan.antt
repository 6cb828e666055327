-- ===== src/Vxlan.antt =====
-- VXLAN links (daemon/vxlan/).
pub mod Manager
pub mod Aliasing
pub mod Link
