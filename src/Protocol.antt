-- ===== src/Protocol.antt =====
-- src/protocol: the companion protocol's wire format.
pub mod Frame
pub mod Types
pub mod Decode
