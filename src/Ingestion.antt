-- ===== src/Ingestion.antt =====
-- The ingestion service (crates/ingestion/src): the HTTP handlers and their error type.
pub mod Api
pub mod Transactions
pub mod Accounts
pub mod Health
pub mod Config
pub mod Tests
