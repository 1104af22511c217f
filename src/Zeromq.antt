-- ===== src/Zeromq.antt =====
-- The ZeroMQ handler: src/core/zeromq_handler.cpp and its header.
pub mod Defs
pub mod Socket
pub mod Configure
pub mod Execute
pub mod Receive
pub mod Endpoint
pub mod Requests
pub mod Replies
pub mod Effects
pub mod Closed
pub mod Roles
pub mod Configured
pub mod Threads
pub mod Exclusive
pub mod Rounds
pub mod Reads
pub mod Delivery
pub mod Conversation
pub mod Invariant
pub mod Frames
pub mod Settings
pub mod Made
pub mod Effective
