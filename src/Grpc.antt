-- ===== src/Grpc.antt =====
-- crates/grpc/src/service/mod.rs: bids over gRPC.
pub mod Messages
pub mod Convert
pub mod Service
pub mod Decide
pub mod Agreement
pub mod Converted
