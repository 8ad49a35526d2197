-- ===== src/Commands.antt =====
-- crates/watchwoman/src/commands: what the daemon does for clients.
pub mod Outcome
pub mod Clock
pub mod States
pub mod Queries
pub mod Subscribe
pub mod Watches
pub mod Debug
pub mod Capabilities
pub mod Info
pub mod Status
pub mod Triggers
pub mod Dispatch
pub mod Examples
