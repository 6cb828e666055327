-- ===== src/Daemon/Valid.antt =====
-- Calls of a daemon one after the other (daemon/kubedtn/handler.go), and what they leave of the link
-- mutexes.
pub mod Others
pub mod Handled
pub mod Closed
pub mod Locks
