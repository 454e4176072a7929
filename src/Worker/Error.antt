-- ===== src/Worker/Error.antt =====
-- The errors of the processor (crates/worker/src/processor.rs).
use Prim.Native.String.{◌++◌}
use financial_data_platform.Prelude.{ℕ, Bool, true, false, String}
use financial_data_platform.Prelude.Int.{pos}
use financial_data_platform.Shared.Error.{
  SqlError, pool_timed_out, SerdeError, Render, DomainError, optimistic_lock_conflict,
  display_domain_error,
}

pub data ProcessError : Type 0 where
  not_found : ℕ → ProcessError
  domain : DomainError → ProcessError
  database : SqlError → ProcessError
  serialization : SerdeError → ProcessError
  fraud_blocked : String → ProcessError
  fraud_check_timeout : ℕ → ProcessError
  permanent : String → ProcessError

-- The `#[error(...)]` texts.
unfoldable pub display_process_error : Render → ProcessError → String
display_process_error r (not_found id) = "transaction not found: " ++ r.uuid id
display_process_error r (domain e) = "domain error: " ++ display_domain_error r e
display_process_error r (database e) = "database error: " ++ r.sql e
display_process_error r (serialization e) = "serialization error: " ++ r.json e
display_process_error r (fraud_blocked m) = "fraud check blocked: " ++ m
display_process_error r (fraud_check_timeout n) =
    "fraud check timed out after " ++ r.number (pos n) ++ "s"
display_process_error r (permanent m) = "permanent failure: " ++ m

-- `ProcessError::is_retryable`
unfoldable pub is_retryable : ProcessError → Bool
is_retryable (database pool_timed_out) = true
is_retryable (domain (optimistic_lock_conflict _ _ _ _)) = true
is_retryable _ = false
