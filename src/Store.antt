-- ===== src/Store.antt =====
-- internal/store: the Postgres tables, the SQL statements, and the methods of `Postgres`.
pub mod Tables
pub mod History
pub mod Evaluate
pub mod Consistency
pub mod Redelivery
pub mod Labels
pub mod Outbox
pub mod Metrics
pub mod Records
pub mod Listing
pub mod Connection
