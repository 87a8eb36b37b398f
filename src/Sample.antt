-- ===== src/Sample.antt =====
-- A concrete world in which the program runs: external code by simple functions, no failures, an
-- empty database and an empty store; and a user who has registered.
use Prim.Native.Char.{code}
use Prim.Native.String.{◌++◌}
use yaima.Base.{
  false, ℕ, ◌+◌, ◌*◌, String, true, none, some, List, [], ◌∷◌, ◌==◌, string_eq, if◌then◌else◌,
  to_decimal,
}
use text.Mathlib.Text.{starts_with}
use yaima.Config.{Config}
use yaima.Models.{AuthMethod, Role, Claims, AuthResponse}
use yaima.External.{
  Env, Argon2, Jwt, Json, Providers, pos, negsuc, decoded, other_kind, replied, failed,
}
use yaima.Program.{World, Outcome, ok, err, panicked}
use yaima.Tokens.{nanos}
use yaima.Valkey.{Store, list_store}

abbrev pub codes : String → List ℕ
codes String.[] = []
codes (String.◌∷◌ c s) = code c ∷ codes s

unfoldable pub dotted : List ℕ → String
unfolding to_decimal
dotted [] = ""
dotted (n ∷ ns) = to_decimal n ++ "." ++ dotted ns

abbrev pub argon2 : Argon2
argon2 = record {
  hash = λ password salt. some (password ++ "$" ++ salt);
  is_hash = λ h. true;
  verify = λ password h. starts_with h (password ++ "$");
}

abbrev pub root : Claims
root = record {
  sub = 1;
  iat = 0;
  exp = 900;
  email = "root@example.com";
  display_name = "root";
  role = Role.admin;
  auth_method = AuthMethod.password;
}

abbrev pub alice : Claims
alice = record {
  sub = 101;
  iat = 0;
  exp = 900;
  email = "alice@example.com";
  display_name = "alice";
  role = Role.user;
  auth_method = AuthMethod.password;
}

abbrev pub jwt : Jwt
jwt = record {
  encode = λ secret claims. some "signed";
  decode = λ now secret token.
      if token == "root-token"
      then decoded root
      else if token == "alice-token"
      then decoded alice
      else other_kind;
}

abbrev pub json : Json
json = record {
  pending_to_string = λ p. p.provider ++ ":" ++ p.verifier_secret;
  pending_from_str = λ s. some (record { verifier_secret = "verifier"; provider = "google" });
  auth_to_string = λ a. a.refresh_token;
  auth_from_str = λ s. none;
}

abbrev pub providers : Providers
providers = record {
  url_error = λ url. none;
  authorize_url = λ id url redirect scopes csrf verifier. url ++ "?state=" ++ csrf;
  csrf_token = λ n. "csrf";
  pkce_verifier = λ n. "verifier";
  exchange = λ n cfg url code verifier. replied "provider-token";
  google_userinfo = λ n token.
      replied
        (record { sub = "g-1"; email = "gina@example.com"; name = some "Gina"; picture = none });
  github_user = λ n token. failed "offline";
  github_emails = λ n token. failed "offline";
}

abbrev pub env : Env Store
env = record {
  argon2 = argon2;
  jwt = jwt;
  json = json;
  providers = providers;
  valkey = list_store;
  sql_fault = λ n. none;
  commit_lost = λ n. false;
  pool_fault = λ n. none;
  command_fault = λ n. none;
  now = λ n. (1000 + n) * nanos;
  uuid = λ n. 100 + n;
  salt = λ n. dotted (n ∷ []);
  random_bytes = λ n. some (n ∷ []);
  hex_encode = dotted;
  hmac_sign = λ secret text. codes text;
  add_seconds = λ t d. elim d [ pos n ↦ some (t + n * nanos) | negsuc n ↦ none ];
  rfc3339 = λ t. none;
}

abbrev pub config : Config
config = record {
  database_url = "postgres://localhost/socle";
  jwt_secret = "a secret of at least thirty-two bytes";
  valkey_url = "redis://127.0.0.1:6379";
  access_token_expiry_secs = 900;
  refresh_token_expiry_secs = 604_800;
  bind_addr = "0.0.0.0:8080";
  shutdown_timeout_secs = 30;
  auth_rate_limit_max = 20;
  auth_rate_limit_window_secs = 60;
  oauth = record {
    google_config = some (record {
      client_id = "id";
      client_secret = "secret";
      redirect_uri = "https://example.com/auth/google/callback";
    });
    github_config = none;
  };
}

abbrev pub start : World Store
start = record {
  db = record { users = []; local_credentials = []; oauth_credentials = []; refresh_tokens = [] };
  store = record { entries = []; counters = [] };
  tick = 0;
}

abbrev pub no_response : AuthResponse
no_response = record {
  access_token = "";
  refresh_token = "";
  expires_in = 0;
  user = record {
    id = 0;
    email = "";
    display_name = "";
    username = none;
    role = Role.guest;
    has_local_credential = true;
    created_at = "";
    updated_at = "";
  };
}

-- The value of an outcome, or the one given.
abbrev pub value_or : {E A : Type 0} → A → Outcome E A → A
value_or d (ok a) = a
value_or d (err e) = d
value_or d panicked = d
