-- ===== src/Ledger.antt =====
-- The general ledger, services/ledger: its records, the SQL statements, the repository over them
-- and the service.
pub mod Model
pub mod Tables
pub mod Queries
pub mod Postgres
pub mod Journal
pub mod Chart
pub mod Trial
pub mod Monthly
pub mod Samples
pub mod Tests
