-- ===== src/Errors.antt =====
-- The errors of the program and their HTTP responses, errors.rs.
pub mod Codes
use yaima.Base.{ℕ, String, Option, none, some}
use Prim.Native.String.{◌++◌}
use yaima.Config.{OAuthProvider, to_string}

-- `sqlx::Error`: an answer of the database with its SQLSTATE code and message, or anything else.
pub data SqlxError : Type 0 where
  database_error : String → String → SqlxError
  other_error : String → SqlxError

pub data OAuthError : Type 0 where
  provider_not_configured : OAuthProvider → OAuthError
  invalid_state : OAuthError
  provider_mismatch : (expected actual : OAuthProvider) → OAuthError
  token_exchange provider_unreachable incomplete_profile : String → OAuthError
  invalid_redirect_uri state_store state_store_redis : String → OAuthError
  provider_denied : (error detail : String) → OAuthError
  unknown_provider : String → OAuthError
  exchange_code_invalid : OAuthError

pub data AppError : Type 0 where
  invalid_credentials token_expired token_invalid missing_auth_header : AppError
  refresh_token_invalid email_taken username_taken user_not_found : AppError
  account_disabled forbidden : AppError
  database : SqlxError → AppError
  hashing : AppError
  internal : String → AppError
  rate_limited : (retry_after : ℕ) → AppError
  oauth_error : OAuthError → AppError

-- `OAuthError::status_code`
abbrev pub oauth_status_code : OAuthError → ℕ
oauth_status_code (provider_not_configured _) = 503
oauth_status_code (state_store _) = 503
oauth_status_code (state_store_redis _) = 503
oauth_status_code invalid_state = 401
oauth_status_code (provider_mismatch _ _) = 401
oauth_status_code exchange_code_invalid = 401
oauth_status_code (token_exchange _) = 502
oauth_status_code (provider_unreachable _) = 502
oauth_status_code (incomplete_profile _) = 502
oauth_status_code (invalid_redirect_uri _) = 500
oauth_status_code (provider_denied _ _) = 400
oauth_status_code (unknown_provider _) = 404

-- `OAuthError::error_code`
abbrev pub oauth_error_code : OAuthError → String
oauth_error_code (provider_not_configured _) = "OAUTH_PROVIDER_NOT_CONFIGURED"
oauth_error_code invalid_state = "OAUTH_INVALID_STATE"
oauth_error_code (provider_mismatch _ _) = "OAUTH_PROVIDER_MISMATCH"
oauth_error_code (token_exchange _) = "OAUTH_TOKEN_EXCHANGE_FAILED"
oauth_error_code (provider_unreachable _) = "OAUTH_PROVIDER_UNREACHABLE"
oauth_error_code (incomplete_profile _) = "OAUTH_INCOMPLETE_PROFILE"
oauth_error_code (invalid_redirect_uri _) = "OAUTH_INVALID_REDIRECT_URI"
oauth_error_code (state_store _) = "OAUTH_STATE_STORE_UNAVAILABLE"
oauth_error_code (state_store_redis _) = "OAUTH_STATE_STORE_ERROR"
oauth_error_code (provider_denied _ _) = "OAUTH_PROVIDER_DENIED"
oauth_error_code (unknown_provider _) = "OAUTH_UNKNOWN_PROVIDER"
oauth_error_code exchange_code_invalid = "EXCHANGE_CODE_INVALID"

-- `AppError::status_code`
unfoldable pub status_code : AppError → ℕ
status_code invalid_credentials = 401
status_code token_expired = 401
status_code token_invalid = 401
status_code missing_auth_header = 401
status_code refresh_token_invalid = 401
status_code email_taken = 409
status_code username_taken = 409
status_code user_not_found = 404
status_code account_disabled = 403
status_code forbidden = 403
status_code (rate_limited _) = 429
status_code (database _) = 500
status_code hashing = 500
status_code (internal _) = 500
status_code (oauth_error e) = oauth_status_code e

-- `AppError::error_code`
unfoldable pub error_code : AppError → String
error_code invalid_credentials = "INVALID_CREDENTIALS"
error_code token_expired = "TOKEN_EXPIRED"
error_code token_invalid = "TOKEN_INVALID"
error_code missing_auth_header = "MISSING_AUTH_HEADER"
error_code refresh_token_invalid = "REFRESH_TOKEN_INVALID"
error_code email_taken = "EMAIL_TAKEN"
error_code username_taken = "USERNAME_TAKEN"
error_code user_not_found = "USER_NOT_FOUND"
error_code account_disabled = "ACCOUNT_DISABLED"
error_code forbidden = "FORBIDDEN"
error_code (rate_limited _) = "RATE_LIMITED"
error_code (database _) = "DATABASE_ERROR"
error_code hashing = "HASHING_ERROR"
error_code (internal _) = "INTERNAL_ERROR"
error_code (oauth_error e) = oauth_error_code e

-- The `#[error(…)]` texts; `shown` gives the `Display` of the wrapped foreign errors and of
-- numbers.
pub record Shown : Type 0 where
  pub sqlx : SqlxError → String
  pub number : ℕ → String

abbrev pub oauth_message : OAuthError → String
oauth_message (provider_not_configured p) =
    "OAuth provider '" ++ to_string p ++ "' is not configured"
oauth_message invalid_state = "invalid or expired OAuth state token"
oauth_message (provider_mismatch expected actual) =
    "OAuth state provider mismatch: expected " ++ to_string expected ++ ", got " ++ to_string actual
oauth_message (token_exchange s) = "token exchange failed: " ++ s
oauth_message (provider_unreachable s) = "provider unreachable: " ++ s
oauth_message (incomplete_profile s) = "incomplete provider profile: missing field '" ++ s ++ "'"
oauth_message (invalid_redirect_uri s) = "invalid redirect URI: " ++ s
oauth_message (state_store s) = "OAuth state store unavailable: " ++ s
oauth_message (state_store_redis s) = "OAuth state store error: " ++ s
oauth_message (provider_denied error detail) =
    "provider denied authorization: " ++ error ++ " — " ++ detail
oauth_message (unknown_provider s) = "unknown OAuth provider: '" ++ s ++ "'"
oauth_message exchange_code_invalid = "exchange code is invalid or expired"

abbrev pub message : Shown → AppError → String
message shown invalid_credentials = "invalid credentials"
message shown token_expired = "token has expired"
message shown token_invalid = "token is invalid"
message shown missing_auth_header = "missing authorization header"
message shown refresh_token_invalid = "refresh token not found or revoked"
message shown email_taken = "email is already taken"
message shown username_taken = "username is already taken"
message shown user_not_found = "user not found"
message shown account_disabled = "account is disabled"
message shown forbidden = "insufficient permissions"
message shown (database e) = "database error: " ++ shown.sqlx e
message shown hashing = "password hashing error"
message shown (internal e) = "internal server error"
message shown (rate_limited n) = "rate limit exceeded, retry after " ++ shown.number n ++ "s"
message shown (oauth_error e) = oauth_message e

-- The status, the `error` object of the JSON body and the `Retry-After` header.
pub record ErrorResponse : Type 0 where
  pub status : ℕ
  pub code : String
  pub body_message : String
  pub retry_after : Option String

abbrev retry_after_header : Shown → AppError → Option String
retry_after_header shown (rate_limited n) = some (shown.number n)
retry_after_header shown _ = none

-- `AppError::into_response`
unfoldable pub into_response : Shown → AppError → ErrorResponse
unfolding status_code error_code
into_response shown e = record {
  status = status_code e;
  code = error_code e;
  body_message = message shown e;
  retry_after = retry_after_header shown e;
}
