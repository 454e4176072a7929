-- ===== src/Shared/Idempotency.antt =====
-- crates/shared/src/idempotency.rs: the key of a request and the hash of its body. Which characters
-- are alphanumeric, the digest and its hexadecimal text come from the libraries.
use Prim.Native.Char.{Char, code}
use Prim.Native.String.{len, ◌++◌}
use financial_data_platform.Prelude.{
  ℕ, Bool, true, ◌&&◌, ◌||◌, not, String, List, Result, ok, err, ltb, ◌==◌, if◌then◌else◌,
}
use financial_data_platform.Prelude.Int.{ℤ, pos}

pub data IdempotencyKeyError : Type 0 where
  empty invalid_chars : IdempotencyKeyError
  too_long : ℕ → IdempotencyKeyError

-- The `#[error(...)]` texts.
unfoldable pub display_key_error : (ℤ → String) → IdempotencyKeyError → String
display_key_error number empty = "idempotency key is empty"
display_key_error number (too_long n) =
    "idempotency key too long: " ++ number (pos n) ++ " chars (max 64)"
display_key_error number invalid_chars =
    "idempotency key contains invalid characters (allowed: a-z, A-Z, 0-9, -, _)"

-- The key, as `IdempotencyKey::as_str` gives it.
pub record IdempotencyKey : Type 0 where
  pub as_str : String

-- `s.chars().all(…)`
unfoldable pub all_chars : (Char → Bool) → String → Bool
all_chars p String.[] = true
all_chars p (String.◌∷◌ c s) = p c && all_chars p s

unfoldable pub is_url_safe : (Char → Bool) → Char → Bool
is_url_safe is_alphanumeric c = is_alphanumeric c || (code c == b'-' || code c == b'_')

-- `IdempotencyKey::new`; `String::len` counts bytes.
unfoldable pub new_key : (Char → Bool) → String → Result IdempotencyKeyError IdempotencyKey
unfolding all_chars is_url_safe
new_key is_alphanumeric s =
    if len s == 0
    then err empty
    else if ltb 64 (len s)
    then err (too_long (len s))
    else if not (all_chars (is_url_safe is_alphanumeric) s)
    then err invalid_chars
    else ok (record { as_str = s })

-- `compute_request_hash`
abbrev pub compute_request_hash : (List ℕ → List ℕ) → (List ℕ → String) → List ℕ → String
compute_request_hash sha256 encode body = encode (sha256 body)
