-- ===== src/Grpc.antt =====
-- The gRPC handler: src/core/grpc_handler.cpp and its header.
pub mod Defs
pub mod Services
pub mod Execute
pub mod Lookup
pub mod Dangling
pub mod Serialize
pub mod Calls
