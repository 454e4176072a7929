-- ===== src/Shared/Error.antt =====
-- crates/shared/src/error.rs: the domain errors, which of them are safe to retry, and the HTTP
-- status of each. Identifiers are 128-bit numbers; the texts of identifiers, amounts, numbers and
-- library errors come from the libraries' `Display`, which is the parameter `Render`.
use Prim.Native.String.{◌++◌}
use financial_data_platform.Prelude.{ℕ, Bool, true, false, String}
use financial_data_platform.Prelude.Int.{ℤ}

-- sqlx::Error, by the variants that the code names; `other` stands for each further variant.
pub data SqlError : Type 0 where
  pool_timed_out row_not_found : SqlError
  io database other : String → SqlError

-- serde_json::Error, by its message.
pub data SerdeError : Type 0 where
  serde : String → SerdeError

pub record Render : Type 0 where
  pub uuid : ℕ → String
  pub decimal : ℤ → String
  pub number : ℤ → String
  pub sql : SqlError → String
  pub json : SerdeError → String

pub data DomainError : Type 0 where
  duplicate_request validation_error invalid_amount : String → DomainError
  currency_mismatch : (source_currency dest_currency : String) → DomainError
  insufficient_funds : (account_id : ℕ) (required available : String) → DomainError
  account_not_found account_inactive transaction_not_found : ℕ → DomainError
  invalid_state_transition : (id : ℕ) (from to : String) → DomainError
  optimistic_lock_conflict : (entity : String) (id : ℕ) (expected actual : ℤ) → DomainError
  database_error : SqlError → DomainError
  serialization_error : SerdeError → DomainError
  internal : String → DomainError

-- The `#[error(...)]` texts.
unfoldable pub display_domain_error : Render → DomainError → String
display_domain_error r (duplicate_request key) =
    "duplicate request: idempotency_key=" ++ key ++ " already processed"
display_domain_error r (validation_error m) = "validation failed: " ++ m
display_domain_error r (invalid_amount a) = "amount must be positive, got " ++ a
display_domain_error r (currency_mismatch s d) = "currency mismatch: source=" ++ s ++ ", dest=" ++ d
display_domain_error r (insufficient_funds id required available) =
    "insufficient funds: account="
    ++ r.uuid id
    ++ ", required="
    ++ required
    ++ ", available="
    ++ available
display_domain_error r (account_not_found id) = "account not found: " ++ r.uuid id
display_domain_error r (account_inactive id) = "account is inactive: " ++ r.uuid id
display_domain_error r (transaction_not_found id) = "transaction not found: " ++ r.uuid id
display_domain_error r (invalid_state_transition id from to) =
    "invalid state transition: " ++ from ++ " → " ++ to ++ " for transaction " ++ r.uuid id
display_domain_error r (optimistic_lock_conflict entity id expected actual) =
    "concurrent modification detected for "
    ++ entity
    ++ " "
    ++ r.uuid id
    ++ " (expected version "
    ++ r.number expected
    ++ ", got "
    ++ r.number actual
    ++ ")"
display_domain_error r (database_error e) = "database error: " ++ r.sql e
display_domain_error r (serialization_error e) = "serialization error: " ++ r.json e
display_domain_error r (internal m) = "internal error: " ++ m

-- `DomainError::is_retryable`
unfoldable pub domain_is_retryable : DomainError → Bool
domain_is_retryable (optimistic_lock_conflict _ _ _ _) = true
domain_is_retryable (database_error pool_timed_out) = true
domain_is_retryable _ = false

-- `DomainError::http_status`
unfoldable pub http_status : DomainError → ℕ
http_status (duplicate_request _) = 200
http_status (validation_error _) = 422
http_status (invalid_amount _) = 422
http_status (currency_mismatch _ _) = 422
http_status (account_not_found _) = 404
http_status (transaction_not_found _) = 404
http_status (account_inactive _) = 409
http_status (insufficient_funds _ _ _) = 409
http_status (invalid_state_transition _ _ _) = 409
http_status (optimistic_lock_conflict _ _ _ _) = 409
http_status _ = 500
