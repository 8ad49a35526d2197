-- ===== src/Query.antt =====
-- crates/watchwoman/src/query: the queries of clients.
pub mod Paths
pub mod Expr
pub mod Field
pub mod Generator
pub mod Run
pub mod Examples
