-- ===== src/Daemon.antt =====
-- crates/watchwoman/src/daemon: clocks, the file index, roots and their collection.
pub mod Clock
pub mod Entry
pub mod Tree
pub mod Watch
pub mod Root
pub mod Persisted
pub mod Scm
pub mod JjScope
pub mod Watcher
pub mod State
pub mod Server
pub mod Examples
