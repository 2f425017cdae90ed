-- ===== src/Node/State.antt =====
-- src/node/state.rs: the methods of `NodeState`. Opening the file, the schema and the vacuum are left out.
mod Cache
mod Messages
mod Clients
mod Maintenance
unfoldable pub use Cache.*
unfoldable pub use Messages.*
unfoldable pub use Clients.*
unfoldable pub use Maintenance.*
