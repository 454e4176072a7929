-- ===== src/Worker.antt =====
-- The worker (crates/worker/src): fraud rules, the errors, the transaction processor and the ledger.
pub mod Fraud
pub mod Error
pub mod Postings
pub mod Ledger
pub mod Processor
pub mod Consumer
pub mod Start
pub mod Tests
mod Examples
