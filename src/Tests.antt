-- ===== src/Tests.antt =====
-- The theorems at concrete inputs, on sample libraries, clients and payloads.
pub mod Samples
mod Serving
mod Streaming
mod Limits
pub mod Blocks
mod Replies
mod Access
mod Forwarding
mod Pending
mod Sockets
mod Proxying
pub mod Starting
mod Launching
mod Publishing
