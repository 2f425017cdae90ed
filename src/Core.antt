-- ===== src/Core.antt =====
-- src/core.rs: the multiplexer between the clients and the radio.
pub mod Awaiting
pub mod Frames
pub mod State
pub mod Clients
pub mod Queue
pub mod Sessions
pub mod Reply
pub mod Steps
pub mod Tests
pub mod Cached
pub mod Commands
pub mod Log
pub mod Cache
pub mod Receive
pub mod Connect
