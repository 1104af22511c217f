-- ===== src/Tests.antt =====
-- The theorems at concrete inputs, and runs of the model.
mod Urls
mod Auths
mod Sockets
mod Calls
mod Managers
mod Lists
mod Exchanges
mod Streams
mod Interleavings
mod Exports
mod Displays
mod Benchmarks
mod Choices
mod Deliveries
mod Links
mod Messages
mod Pollings
mod Sessions
