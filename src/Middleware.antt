-- ===== src/Middleware.antt =====
-- middleware.rs: the bearer token and the extractors that guard the handlers; and the parts of
-- routes/auth.rs that read a request for the rate limiter.
pub mod Guards
use Prim.Native.String.{◌++◌}
use yaima.Base.{
  ℕ, String, Bool, true, false, not, Option, none, some, List, [], ◌∷◌, if◌then◌else◌, ◌==◌,
  string_eq, is_empty, first_field, trim, strip_prefix,
}
use yaima.Config.{Config}
use yaima.Models.{Role, user, admin, Claims, is_at_least}
use yaima.Errors.{AppError, missing_auth_header, forbidden}
use yaima.External.{Env}
use yaima.Program.{Action, pure, ok_or, raise_if, ◌>>=◌, ◌>>◌}
use yaima.Tokens.{validate_access_token}

-- A header's value, as `HeaderValue::to_str` reads it: `none` where that fails.
abbrev pub HeaderMap : Type 0
HeaderMap = List (String × Option String)

-- The methods of the routes.
pub data Method : Type 0 where
  get post put delete : Method

-- `method.to_string().to_lowercase()`
abbrev pub method_name : Method → String
method_name get = "get"
method_name post = "post"
method_name put = "put"
method_name delete = "delete"

pub record Request : Type 0 where
  pub method : Method
  pub path : String
  pub headers : HeaderMap

-- `headers.get(name).and_then(|v| v.to_str().ok())`
abbrev pub header : String → HeaderMap → Option String
header name [] = none
header name ((n, v) ∷ rest) = if n == name then v else header name rest

abbrev stripped : Option String → Option String
stripped none = none
stripped (some v) = strip_prefix "Bearer " v

unfoldable pub extract_bearer : HeaderMap → Option String
extract_bearer headers = stripped (header "authorization" headers)

-- A text that is not empty once trimmed.
abbrev pub non_empty : Option String → Option String
non_empty none = none
non_empty (some s) = if is_empty (trim s) then none else some (trim s)

abbrev pub first_address : Option String → Option String
first_address none = none
first_address (some s) = some (first_field b',' s)

abbrev pub or_else {ℓ} : {A : Type ℓ} → Option A → A → A
or_else none d = d
or_else (some a) d = a

-- `extract_client_ip`
unfoldable pub extract_client_ip : HeaderMap → String
extract_client_ip headers =
    or_else (non_empty (first_address (header "x-forwarded-for" headers)))
      (or_else (non_empty (header "x-real-ip" headers)) "unknown")

unfoldable pub endpoint_key : Request → String
endpoint_key req = method_name req.method ++ ":" ++ req.path

module _ {S : Type 0} (env : Env S) (config : Config) where
  unfoldable pub require_role : Claims → Role → Action S AppError Unit
  require_role claims minimum = raise_if (not (is_at_least claims.role minimum)) forbidden

  -- `AuthUser::from_request_parts`
  unfoldable pub auth_user : HeaderMap → Action S AppError Claims
  auth_user headers = do
    token ← ok_or (extract_bearer headers) missing_auth_header
    validate_access_token env config token

  -- `RequireUser::from_request_parts`
  unfoldable pub require_user : HeaderMap → Action S AppError Claims
  require_user headers = do claims ← auth_user headers; require_role claims user; pure claims

  -- `RequireAdmin::from_request_parts`
  unfoldable pub require_admin : HeaderMap → Action S AppError Claims
  require_admin headers = do claims ← auth_user headers; require_role claims admin; pure claims
