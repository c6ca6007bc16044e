-- ===== src/Store.antt =====
-- internal/adapters/db/repositories over the tables of db/migrations: the rows that the services
-- read and write, and the calls on them.
mod Tables
mod Query
pub mod Always
pub mod Answers
pub mod Payments
pub mod Events
pub mod Idempotency
pub mod Runs
pub mod Evolve
pub mod Success
pub mod Rows
pub mod Transaction
pub use Tables.*
unfoldable pub use Query.*
