-- ===== src/Node.antt =====
-- src/node: the persistent state of the node.
pub mod Sql
pub mod Db
pub mod State
pub mod Replay
pub mod Stored
pub mod Kv
pub mod Cursor
pub mod Purge
pub mod Tests
pub mod Contacts
pub mod Backlog
