-- ===== src/WebSocket.antt =====
-- The WebSocket handler: src/core/websocket_handler.cpp and its header.
pub mod Defs
pub mod Connect
pub mod Exchange
pub mod Opening
pub mod Ends
pub mod Runs
pub mod Told
pub mod Plain
