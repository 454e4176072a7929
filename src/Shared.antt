-- ===== src/Shared.antt =====
-- The shared crate (crates/shared/src): errors, domain types, events, fault injection, the audit log.
pub mod Error
pub mod Settings
pub mod Decimal
pub mod Domain
pub mod Fault
pub mod Idempotency
pub mod Events
pub mod Audit
mod Tests
