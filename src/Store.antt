-- ===== src/Store.antt =====
-- The database that the services share (migrations/001_initial_schema.sql): its tables, with the
-- checks that the schema makes, and a connection that holds one open transaction.
pub mod Tables
pub mod Grows
pub mod Session
pub mod Statements
pub mod Inserts
pub mod Logic
pub mod Serve
pub mod Autocommit
