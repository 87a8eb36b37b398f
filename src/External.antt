-- ===== src/External.antt =====
-- The code that the program calls and does not contain: argon2, ring's HMAC, jsonwebtoken, hex,
-- serde_json, the clock, the random number generators, PostgreSQL's failures, Valkey, and the
-- OAuth providers. Each is a field of a record that the model takes as a parameter. What varies
-- from call to call is a function of the number of the call (`World.tick`).
use yaima.Base.{ℕ, String, Bool, Option, List}
use yaima.Config.{OAuthProviderConfig}
use yaima.Models.{Uuid, OffsetDateTime, Claims, AuthResponse}
use yaima.Errors.{SqlxError}

-- A signed 64-bit number; `negsuc n` is -(n + 1).
pub data ℤ : Type 0 where
  pos negsuc : ℕ → ℤ

-- argon2 with its default parameters.
pub record Argon2 : Type 0 where
  -- `hash_password(password, salt)`, printed
  pub hash : String → String → Option String
  -- `PasswordHash::new(hash).is_ok()`
  pub is_hash : String → Bool
  -- `verify_password(password, hash).is_ok()`
  pub verify : String → String → Bool

-- What `jsonwebtoken::decode` answers.
pub data Decoded : Type 0 where
  decoded : Claims → Decoded
  expired_signature other_kind : Decoded

pub record Jwt : Type 0 where
  -- `encode(header, claims, secret)`
  pub encode : String → Claims → Option String
  -- `decode(token, secret)` at a time in seconds
  pub decode : ℕ → String → String → Decoded

-- `StoredPendingAuth`, the value that oauth.rs serialises.
pub record StoredPendingAuth : Type 0 where
  pub verifier_secret : String
  pub provider : String

-- serde_json on the two types that the program stores.
pub record Json : Type 0 where
  pub pending_to_string : StoredPendingAuth → String
  pub pending_from_str : String → Option StoredPendingAuth
  pub auth_to_string : AuthResponse → String
  pub auth_from_str : String → Option AuthResponse

-- `GoogleUserInfo`, `GitHubUserInfo` and `GitHubEmail`, as reqwest's `json()` gives them.
pub record GoogleUserInfo : Type 0 where
  pub sub : String
  pub email : String
  pub name : Option String
  pub picture : Option String

pub record GitHubUserInfo : Type 0 where
  pub id : ℕ
  pub email : Option String
  pub name : Option String
  pub avatar_url : Option String
  pub login : String

pub record GitHubEmail : Type 0 where
  pub email : String
  pub primary : Bool
  pub verified : Bool

-- A call over the network: a value, or the text of the error.
pub data Reply (A : Type 0) : Type 0 where
  replied : A → Reply A
  failed : String → Reply A

-- The crates oauth2 and reqwest, with the providers behind them.
pub record Providers : Type 0 where
  -- `AuthUrl::new`, `TokenUrl::new` and `RedirectUrl::new`: the error of a text that is no URL
  pub url_error : String → Option String
  -- the consent URL, from client id, authorization URL, redirect URI, scopes, CSRF token, verifier
  pub authorize_url : String → String → String → List String → String → String → String
  pub csrf_token : ℕ → String
  pub pkce_verifier : ℕ → String
  -- `exchange_code(code).set_pkce_verifier(verifier).request_async()`
  pub exchange : ℕ → OAuthProviderConfig → String → String → String → Reply String
  -- `GET` of a user-info URL with a bearer token
  pub google_userinfo : ℕ → String → Reply GoogleUserInfo
  pub github_user : ℕ → String → Reply GitHubUserInfo
  pub github_emails : ℕ → String → Reply (List GitHubEmail)

-- Valkey over an abstract store. Times are seconds of the server's clock.
pub record Valkey (S : Type 0) : Type 0 where
  -- `SETEX key ttl value`
  pub set_ex : ℕ → String → String → ℕ → S → S
  -- `GETDEL key`
  pub get_del : ℕ → String → S → Option String
  pub after_get_del : ℕ → String → S → S
  -- `INCR key`: the new count
  pub incr : ℕ → String → S → ℕ
  pub after_incr : ℕ → String → S → S
  -- `EXPIRE key ttl`
  pub expire : ℕ → String → ℤ → S → S

pub record Env (S : Type 0) : Type 0 where
  pub argon2 : Argon2
  pub jwt : Jwt
  pub json : Json
  pub providers : Providers
  pub valkey : Valkey S
  -- the error of a database call that fails for no reason in the statement
  pub sql_fault : ℕ → Option SqlxError
  -- whether a `COMMIT` that reports an error has taken effect all the same
  pub commit_lost : ℕ → Bool
  -- the errors of deadpool's `get` and of a Valkey command
  pub pool_fault : ℕ → Option String
  pub command_fault : ℕ → Option String
  -- the clock, in nanoseconds since the epoch
  pub now : ℕ → OffsetDateTime
  -- `Uuid::now_v7`, `SaltString::generate`, and `getrandom::fill`, `none` where it fails
  pub uuid : ℕ → Uuid
  pub salt : ℕ → String
  pub random_bytes : ℕ → Option (List ℕ)
  pub hex_encode : List ℕ → String
  -- `hmac::sign` with SHA-256, from key and text
  pub hmac_sign : String → String → List ℕ
  -- `OffsetDateTime + Duration::seconds(n)`, `none` where it panics
  pub add_seconds : OffsetDateTime → ℤ → Option OffsetDateTime
  -- the `time` crate's `format(&Rfc3339)`
  pub rfc3339 : OffsetDateTime → Option String
