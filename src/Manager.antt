-- ===== src/Manager.antt =====
-- The request manager: src/models/request_manager.cpp and its header.
pub mod Defs
pub mod Notices
pub mod Protocols
pub mod GrpcCalls
pub mod Requests
pub mod Messages
pub mod Export
pub mod Saving
pub mod Steps
pub mod Sound
pub mod Kept
pub mod Launching
pub mod Sockets
pub mod Invariant
pub mod Cancelling
pub mod Starting
pub mod Connecting
pub mod Validation
pub mod Orphans
pub mod Linking
pub mod Calling
pub mod Stale
pub mod Forgotten
pub mod Delivering
pub mod Sending
pub mod Reading
pub mod Receiving
pub mod Disconnecting
pub mod Messaging
pub mod Selecting
pub mod Parts
pub mod Tidy
pub mod Switching
pub mod Leaving
pub mod Stepping
pub mod Polling
pub mod Serving
pub mod Listening
pub mod Restful
pub mod Returning
pub mod Progress
pub mod Staffed
pub mod Session
pub mod Showing
