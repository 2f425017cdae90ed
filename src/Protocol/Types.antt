-- ===== src/Protocol/Types.antt =====
-- src/protocol/types.rs: the command and response codes.
pub mod Arms
pub mod Command
pub mod Response
mod Tests
