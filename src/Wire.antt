-- ===== src/Wire.antt =====
-- Wires over gRPC (daemon/grpcwire/grpcwire.go).
pub mod Table
pub mod Names
pub mod Remove
pub mod Create
pub mod Frame
pub mod Receive
