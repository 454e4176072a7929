-- ===== src/Ingestion/Api.antt =====
-- `ApiError` of crates/ingestion/src/handlers/transactions.rs and its HTTP response.
use Prim.Native.String.{◌++◌}
use financial_data_platform.Prelude.{ℕ, String, if◌then◌else◌, leb, ◌&&◌}
use financial_data_platform.Shared.Error.{
  SqlError, SerdeError, Render, DomainError, display_domain_error, http_status,
}

pub data ApiError : Type 0 where
  missing_idempotency_key : ApiError
  invalid_idempotency_key idempotency_key_reused validation_error : String → ApiError
  not_found : ℕ → ApiError
  domain : DomainError → ApiError
  database : SqlError → ApiError
  serialization : SerdeError → ApiError
  internal : String → ApiError

-- The `#[error(...)]` texts.
unfoldable pub display_api_error : Render → ApiError → String
display_api_error r missing_idempotency_key = "Idempotency-Key header is required"
display_api_error r (invalid_idempotency_key m) = "invalid idempotency key: " ++ m
display_api_error r (idempotency_key_reused key) =
    "idempotency key '" ++ key ++ "' already used with different request body"
display_api_error r (validation_error m) = "validation error: " ++ m
display_api_error r (not_found id) = "not found: " ++ r.uuid id
display_api_error r (domain e) = "domain error: " ++ display_domain_error r e
display_api_error r (database e) = "database error: " ++ r.sql e
display_api_error r (serialization e) = "serialization error: " ++ r.json e
display_api_error r (internal m) = "internal error: " ++ m

-- `StatusCode::from_u16(…).unwrap_or(INTERNAL_SERVER_ERROR)`: a status has three digits.
abbrev pub status_from_u16 : ℕ → ℕ
status_from_u16 n = if leb 100 n && leb n 999 then n else 500

pub record ErrorResponse : Type 0 where
  pub status : ℕ
  pub error_code : String
  pub message : String

-- `IntoResponse for ApiError`
unfoldable pub into_response : Render → ApiError → ErrorResponse
unfolding display_api_error
into_response r missing_idempotency_key = record {
  status = 400;
  error_code = "MISSING_IDEMPOTENCY_KEY";
  message = display_api_error r missing_idempotency_key;
}
into_response r (invalid_idempotency_key m) = record {
  status = 400;
  error_code = "INVALID_IDEMPOTENCY_KEY";
  message = display_api_error r (invalid_idempotency_key m);
}
into_response r (idempotency_key_reused key) = record {
  status = 422;
  error_code = "IDEMPOTENCY_KEY_REUSED";
  message = display_api_error r (idempotency_key_reused key);
}
into_response r (validation_error m) = record {
  status = 422;
  error_code = "VALIDATION_ERROR";
  message = display_api_error r (validation_error m);
}
into_response r (not_found id) = record {
  status = 404;
  error_code = "NOT_FOUND";
  message = display_api_error r (not_found id);
}
into_response r (domain e) = record {
  status = status_from_u16 (http_status e);
  error_code = "DOMAIN_ERROR";
  message = display_api_error r (domain e);
}
into_response r other = record {
  status = 500;
  error_code = "INTERNAL_ERROR";
  message = "an internal error occurred";
}
