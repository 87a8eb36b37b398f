-- ===== src/Errors/Codes.antt =====
-- What a client can read from an error response.
use yaima.Base.{
  String, ℕ, Option, some, List, [], ◌∷◌, refl, sym, ap, ◌∙◌, ◌==◌, string_eq, if◌then◌else◌, ◌≡◌,
  ◌≢◌, ◌↔◌, none, arith, ◌≤◌, ◌<◌,
}
use yaima.Errors.{
  AppError, OAuthError, oauth_error_code, oauth_status_code, provider_not_configured, invalid_state,
  provider_mismatch, token_exchange, provider_unreachable, incomplete_profile, invalid_redirect_uri,
  state_store, state_store_redis, provider_denied, unknown_provider, exchange_code_invalid,
  invalid_credentials, token_expired, token_invalid, missing_auth_header, refresh_token_invalid,
  email_taken, username_taken, user_not_found, account_disabled, forbidden, database, hashing,
  internal, rate_limited, oauth_error, Shown, into_response, error_code, status_code,
}

-- A response carries `Retry-After` exactly when its status is 429, and never a status below 400
-- or above 599.
pub into_response_shape :
    (shown : Shown) (e : AppError)
    → (((into_response shown e).retry_after ≢ none) ↔ ((into_response shown e).status ≡ 429))
      × (400 ≤ (into_response shown e).status)
      × ((into_response shown e).status < 600)
unfolding into_response
into_response_shape shown e = ground arith

-- The codes of the interface, each with its status.
abbrev table : List (String × ℕ)
table =
    ("INVALID_CREDENTIALS", 401)
    ∷ ("TOKEN_EXPIRED", 401)
    ∷ ("TOKEN_INVALID", 401)
    ∷ ("MISSING_AUTH_HEADER", 401)
    ∷ ("REFRESH_TOKEN_INVALID", 401)
    ∷ ("EMAIL_TAKEN", 409)
    ∷ ("USERNAME_TAKEN", 409)
    ∷ ("USER_NOT_FOUND", 404)
    ∷ ("ACCOUNT_DISABLED", 403)
    ∷ ("FORBIDDEN", 403)
    ∷ ("RATE_LIMITED", 429)
    ∷ ("DATABASE_ERROR", 500)
    ∷ ("HASHING_ERROR", 500)
    ∷ ("INTERNAL_ERROR", 500)
    ∷ ("OAUTH_PROVIDER_NOT_CONFIGURED", 503)
    ∷ ("OAUTH_INVALID_STATE", 401)
    ∷ ("OAUTH_PROVIDER_MISMATCH", 401)
    ∷ ("OAUTH_TOKEN_EXCHANGE_FAILED", 502)
    ∷ ("OAUTH_PROVIDER_UNREACHABLE", 502)
    ∷ ("OAUTH_INCOMPLETE_PROFILE", 502)
    ∷ ("OAUTH_INVALID_REDIRECT_URI", 500)
    ∷ ("OAUTH_STATE_STORE_UNAVAILABLE", 503)
    ∷ ("OAUTH_STATE_STORE_ERROR", 503)
    ∷ ("OAUTH_PROVIDER_DENIED", 400)
    ∷ ("OAUTH_UNKNOWN_PROVIDER", 404)
    ∷ ("EXCHANGE_CODE_INVALID", 401)
    ∷ []

abbrev looked_up : String → List (String × ℕ) → Option ℕ
looked_up code [] = none
looked_up code ((c, n) ∷ rest) = if c == code then some n else looked_up code rest

oauth_error-listed :
    (e : OAuthError) → looked_up (oauth_error_code e) table ≡ some (oauth_status_code e)
oauth_error-listed (provider_not_configured p) = refl
oauth_error-listed invalid_state = refl
oauth_error-listed (provider_mismatch p q) = refl
oauth_error-listed (token_exchange s) = refl
oauth_error-listed (provider_unreachable s) = refl
oauth_error-listed (incomplete_profile s) = refl
oauth_error-listed (invalid_redirect_uri s) = refl
oauth_error-listed (state_store s) = refl
oauth_error-listed (state_store_redis s) = refl
oauth_error-listed (provider_denied s t) = refl
oauth_error-listed (unknown_provider s) = refl
oauth_error-listed exchange_code_invalid = refl

-- The code of every error is listed in the table, with the error's status.
error-listed : (e : AppError) → looked_up (error_code e) table ≡ some (status_code e)
unfolding error_code status_code
error-listed invalid_credentials = refl
error-listed token_expired = refl
error-listed token_invalid = refl
error-listed missing_auth_header = refl
error-listed refresh_token_invalid = refl
error-listed email_taken = refl
error-listed username_taken = refl
error-listed user_not_found = refl
error-listed account_disabled = refl
error-listed forbidden = refl
error-listed (database e) = refl
error-listed hashing = refl
error-listed (internal e) = refl
error-listed (rate_limited n) = refl
error-listed (oauth_error e) = oauth_error-listed e

some-injective : (m n : ℕ) → some m ≡ some n → m ≡ n
some-injective m n h = cc

-- The status of an error is determined by its code: two errors with one code have one status.
pub error_code_determines_status :
    (e f : AppError) → error_code e ≡ error_code f → status_code e ≡ status_code f
error_code_determines_status e f h =
    some-injective _ _ (sym (error-listed e) ∙ ap (λ c. looked_up c table) h ∙ error-listed f)
