-- ===== src/Config.antt =====
-- The configuration, config.rs: `Config`, the OAuth providers and their slugs.
use yaima.Base.{
  ℕ, String, ◌≡◌, ◌↔◌, Bool, true, false, Option, none, some, arith, PartialEq, ◌==◌, string_eq,
  if◌then◌else◌,
}
use text.Mathlib.TextEquality.{eq_iff}

-- `OAuthProvider`
pub data OAuthProvider : Type 0 where
  google git_hub : OAuthProvider

abbrev provider_beq : OAuthProvider → OAuthProvider → Bool
provider_beq google google = true
provider_beq git_hub git_hub = true
provider_beq _ _ = false

pub provider_beq_iff : (p q : OAuthProvider) → (provider_beq p q ≡ true) ↔ (p ≡ q)
provider_beq_iff google google = ground arith
provider_beq_iff google git_hub = ground arith
provider_beq_iff git_hub google = ground arith
provider_beq_iff git_hub git_hub = ground arith

instance abbrev pub oauth_provider_eq : PartialEq OAuthProvider
oauth_provider_eq = record { beq = provider_beq; beq_means = provider_beq_iff }

unfoldable pub from_slug : String → Option OAuthProvider
from_slug slug =
    if slug == "google" then some google else if slug == "github" then some git_hub else none

unfoldable pub slug : OAuthProvider → String
slug google = "google"
slug git_hub = "github"

-- `Display` writes the slug.
unfoldable pub to_string : OAuthProvider → String
unfolding slug
to_string p = slug p

-- `OAuthProviderConfig`
pub record OAuthProviderConfig : Type 0 where
  pub client_id : String
  pub client_secret : String
  pub redirect_uri : String

pub record OAuthConfig : Type 0 where
  pub google_config : Option OAuthProviderConfig
  pub github_config : Option OAuthProviderConfig

-- `OAuthConfig::provider`
unfoldable pub provider : OAuthConfig → OAuthProvider → Option OAuthProviderConfig
provider c google = c.google_config
provider c git_hub = c.github_config

abbrev all_set : Option String → Option String → Option String → Option OAuthProviderConfig
all_set (some client_id) (some client_secret) (some redirect_uri) =
    some
      (record { client_id = client_id; client_secret = client_secret; redirect_uri = redirect_uri })
all_set _ _ _ = none

-- `OAuthConfig::from_env`, over what `std::env::var(name).ok()` gives.
unfoldable pub oauth_from_env : (String → Option String) → OAuthConfig
oauth_from_env var = record {
  google_config =
      all_set (var "OAUTH_GOOGLE_CLIENT_ID") (var "OAUTH_GOOGLE_CLIENT_SECRET")
        (var "OAUTH_GOOGLE_REDIRECT_URI");
  github_config =
      all_set (var "OAUTH_GITHUB_CLIENT_ID") (var "OAUTH_GITHUB_CLIENT_SECRET")
        (var "OAUTH_GITHUB_REDIRECT_URI");
}

-- `Config`
pub record Config : Type 0 where
  pub database_url : String
  pub jwt_secret : String
  pub valkey_url : String
  pub access_token_expiry_secs : ℕ
  pub refresh_token_expiry_secs : ℕ
  pub bind_addr : String
  pub shutdown_timeout_secs : ℕ
  pub auth_rate_limit_max : ℕ
  pub auth_rate_limit_window_secs : ℕ
  pub oauth : OAuthConfig

abbrev pub default_access_token_expiry : ℕ
default_access_token_expiry = 900

abbrev pub default_refresh_token_expiry : ℕ
default_refresh_token_expiry = 604_800

abbrev pub default_bind_addr : String
default_bind_addr = "0.0.0.0:8080"

abbrev pub default_shutdown_timeout : ℕ
default_shutdown_timeout = 30

abbrev pub default_auth_rate_limit_max : ℕ
default_auth_rate_limit_max = 20

abbrev pub default_auth_rate_limit_window_secs : ℕ
default_auth_rate_limit_window_secs = 60

-- `Config::from_env`: the fields that `envy` reads, with the defaults of the `#[serde(default)]`
-- attributes; `envy` itself, which parses the variables, is the argument.
pub record EnvFields : Type 0 where
  pub database_url : String
  pub jwt_secret : String
  pub valkey_url : String
  pub access_token_expiry_secs : Option ℕ
  pub refresh_token_expiry_secs : Option ℕ
  pub bind_addr : Option String
  pub shutdown_timeout_secs : Option ℕ
  pub auth_rate_limit_max : Option ℕ
  pub auth_rate_limit_window_secs : Option ℕ

abbrev or_default : {A : Type 0} → Option A → A → A
or_default none d = d
or_default (some a) d = a

abbrev filled : EnvFields → OAuthConfig → Config
filled f oauth = record {
  database_url = f.database_url;
  jwt_secret = f.jwt_secret;
  valkey_url = f.valkey_url;
  access_token_expiry_secs = or_default f.access_token_expiry_secs default_access_token_expiry;
  refresh_token_expiry_secs = or_default f.refresh_token_expiry_secs default_refresh_token_expiry;
  bind_addr = or_default f.bind_addr default_bind_addr;
  shutdown_timeout_secs = or_default f.shutdown_timeout_secs default_shutdown_timeout;
  auth_rate_limit_max = or_default f.auth_rate_limit_max default_auth_rate_limit_max;
  auth_rate_limit_window_secs =
      or_default f.auth_rate_limit_window_secs default_auth_rate_limit_window_secs;
  oauth = oauth;
}

unfoldable pub from_env : (envy : Option EnvFields) → (var : String → Option String) → Option Config
unfolding oauth_from_env
from_env none var = none
from_env (some f) var = some (filled f (oauth_from_env var))

-- A text is parsed to a provider exactly when it is that provider's slug.
pub from_slug_iff : (s : String) (p : OAuthProvider) → (from_slug s ≡ some p) ↔ (s ≡ slug p)
unfolding from_slug slug
from_slug_iff s google = ground (arith, eq_iff s "google", eq_iff s "github")
from_slug_iff s git_hub = ((λ e. ground (arith, eq_iff s "google", eq_iff s "github")), λ e. rw e)
