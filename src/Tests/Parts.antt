-- ===== src/Tests/Parts.antt =====
-- The OAuth store, the tokens, the rate limiter and the small functions at concrete inputs.
use yaima.Base.{
  ◌+◌, ◌*◌, ◌/◌, ◌≤◌, ◌<◌, ◌≢◌, ◌↔◌, String, ◌≡◌, refl, true, false, none, some, [], ◌∷◌, arith,
}
use yaima.Config.{google, git_hub}
use yaima.Models.{user, AuthMethod}
use yaima.Errors.{
  other_error, AppError, rate_limited, invalid_state, provider_mismatch, Shown, into_response,
  error_code, status_code,
}
use yaima.Errors.Codes.{into_response_shape, error_code_determines_status}
use yaima.External.{Env, replied}
use yaima.Program.{World, Outcome, ok, err, Action, pure, ◌>>=◌}
use yaima.Program.Inversion.{Returns}
use yaima.Valkey.{Store, list_store-IsStore}
use yaima.Tokens.{nanos, generate_access_token, validate_access_token}
use yaima.Tokens.Access.{issued, generate-validate}
use yaima.OauthStore.{
  insert, take, fetch_github_primary_email, remote, get_connection, set_ex, command,
}
use yaima.OauthStore.OneTime.{IsUp, insert-take, take_once}
use yaima.OauthStore.Profile.{IsPrimary, fetch_github_primary_email-IsPrimary}
use yaima.RateLimit.{RateLimiter, Verdict, judged, bucket_key, check}
use yaima.RateLimit.Bounds.{IsFair, judged-IsFair}
use yaima.RateLimit.Keys.{to_login, bucket_key-eq}
use yaima.RateLimit.Total.{IsHonest, check_total}
use yaima.Middleware.{Request, post, extract_client_ip, endpoint_key}
use yaima.Routes
use yaima.Routes.Access.{HasProceeded, rate_limit_middleware-IsHonest}
use yaima.Sample.{env, config, start, providers, json, value_or}
use yaima.Tests.Encoding.{
  pending_to_string, pending_from_str, pending_round, packing_jwt, packing_jwt-IsJwt,
}

-- The sample world with values that are read back, and a GitHub that answers.
abbrev packing_env : Env Store
packing_env = record env {
  jwt = packing_jwt;
  json = record json { pending_to_string = pending_to_string; pending_from_str = pending_from_str };
  now = λ n. n * nanos;
  providers = record providers {
    github_emails = λ n token. replied (
        record { email = "old@example.com"; primary = false; verified = true }
        ∷ record { email = "octo@example.com"; primary = true; verified = true }
        ∷ []);
  };
}

up : IsUp packing_env
up = record { pool = λ n. refl; commands = λ n. refl }

insert_soon :
    packing_env.now (insert packing_env "s1" git_hub "v1" start).1.tick / nanos
    < packing_env.now start.tick / nanos + 600
unfolding insert get_connection set_ex command ◌>>=◌
insert_soon = omega arith

insert-take_example :
    (take packing_env "s1" google (insert packing_env "s1" git_hub "v1" start).1).0
    ≡ err (provider_mismatch google git_hub)
insert-take_example =
    insert-take packing_env list_store-IsStore up "s1" git_hub google "v1" start pending_round
      insert_soon

take_once_example :
    (take packing_env "s1" git_hub (take packing_env "s1" google start).1).0 ≡ err invalid_state
take_once_example = take_once packing_env list_store-IsStore up "s1" google git_hub start

abbrev token_run : Outcome AppError String × World Store
token_run = generate_access_token packing_env config 7 "a@b.c" "a" user AuthMethod.password start

token_runs :
    generate_access_token packing_env config 7 "a@b.c" "a" user AuthMethod.password start
    ≡ (ok (value_or "" token_run.0), token_run.1)
unfolding generate_access_token ◌>>=◌
token_runs = refl

generate-validate_example :
    (validate_access_token packing_env config (value_or "" token_run.0) start).0
    ≡ ok (issued packing_env config 7 "a@b.c" "a" user AuthMethod.password 0)
generate-validate_example =
    generate-validate packing_env config packing_jwt-IsJwt 7 "a@b.c" "a" user AuthMethod.password
      start (value_or "" token_run.0) token_run.1 start token_runs (omega arith)

github_runs :
    Returns
      (fetch_github_primary_email packing_env "t")
      start
      "octo@example.com"
      (fetch_github_primary_email packing_env "t" start).1
unfolding fetch_github_primary_email remote ◌>>=◌
github_runs = refl

fetch_github_primary_email-IsPrimary_example : IsPrimary packing_env "t" "octo@example.com"
fetch_github_primary_email-IsPrimary_example =
    fetch_github_primary_email-IsPrimary packing_env "t" start "octo@example.com"
      (fetch_github_primary_email packing_env "t" start).1 github_runs

abbrev strict : RateLimiter
strict = record { max_requests = 2; window_secs = 60 }

judged-IsFair_example : IsFair strict 1000 3 (judged strict 1000 3)
judged-IsFair_example = judged-IsFair strict 1000 3 (omega arith) (omega arith)

-- Where the counting of a request starts.
abbrev counting : World Store
counting = record start { tick = 1 }

check_total_example :
    (v : Verdict) × (w' : World Store) × Returns {E = AppError}
      (check env strict "1.2.3.4" "post:/auth/login")
      start
      v
      w'
    × IsHonest env strict (bucket_key "post:/auth/login" "1.2.3.4" 16) 1000 counting v
check_total_example =
    check_total env strict {E = AppError} "1.2.3.4" "post:/auth/login" start (omega arith)
      (omega arith)

abbrev from_proxy : Request
from_proxy = record {
  method = post;
  path = "/auth/login";
  headers = ("x-forwarded-for", some " , 10.0.0.1") ∷ ("x-real-ip", some "1.2.3.4") ∷ [];
}

abbrev healthy : Action Store AppError Routes.Response
healthy = pure Routes.healthy

rate_limit_middleware-IsHonest_example :
    let limiter = Routes.limiter env config in
    (v : Verdict) × (w' : World Store) × Returns {E = AppError}
      (check env limiter (extract_client_ip from_proxy.headers) (endpoint_key from_proxy))
      start
      v
      w'
    × IsHonest env limiter
        (bucket_key
          (endpoint_key from_proxy)
          (extract_client_ip from_proxy.headers)
          (1000 / config.auth_rate_limit_window_secs))
        1000
        counting
        v
    × HasProceeded env config healthy w' v
        (Routes.rate_limit_middleware env config from_proxy healthy start)
rate_limit_middleware-IsHonest_example =
    rate_limit_middleware-IsHonest env config from_proxy healthy start (omega arith) (omega arith)

abbrev caller : String
caller = "10.0.0.1"

bucket_key-eq_example : (to_login ≡ to_login) × (caller ≡ caller)
bucket_key-eq_example = bucket_key-eq to_login to_login caller caller 16 refl

abbrev shown : Shown
shown = record { sqlx = λ e. "sqlx"; number = λ n. "17" }

into_response_shape_example :
    (((into_response shown (rate_limited 17)).retry_after ≢ none)
      ↔ ((into_response shown (rate_limited 17)).status ≡ 429))
    × (400 ≤ (into_response shown (rate_limited 17)).status)
    × ((into_response shown (rate_limited 17)).status < 600)
into_response_shape_example = into_response_shape shown (rate_limited 17)

same_code :
    error_code (AppError.database (other_error "a"))
    ≡ error_code (AppError.database (other_error "b"))
unfolding error_code
same_code = refl

error_code_determines_status_example :
    status_code (AppError.database (other_error "a"))
    ≡ status_code (AppError.database (other_error "b"))
error_code_determines_status_example =
    error_code_determines_status (AppError.database (other_error "a"))
      (AppError.database (other_error "b")) same_code
