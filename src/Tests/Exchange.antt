-- ===== src/Tests/Exchange.antt =====
-- A callback of Google in the sample world, and its session.
use yaima.Base.{ℕ, suc, ◌≡◌, ◌+◌, ◌/◌, ◌<◌, refl, some, none, arith}
use yaima.Errors.{AppError}
use yaima.External.{Env}
use yaima.Program.{World, Outcome, ok, ◌>>=◌, map_err, query}
use yaima.Valkey.{Store, list_store-IsStore}
use yaima.Sample.{env, config, json, start, value_or, dotted}
use yaima.Config.{from_slug, provider, to_string}
use yaima.Db.{
  insert_user, insert_refresh_token, select_user_by_identity, select_user_by_email,
  select_local_credential, insert_oauth_credential,
}
use yaima.Users.{
  create_from_oauth, find_by_oauth_identity, find_by_email, find_local_credential,
  link_oauth_account,
}
use yaima.Tokens.{
  nanos, generate_access_token, create_refresh_token, generate_opaque_token, hash_refresh_token,
}
use yaima.Auth.{issue_tokens, existing_or_new, resolve_user, login_or_register_oauth}
use yaima.OauthStore.{
  exchange_ttl_secs, insert, take, read_state, get_connection, set_ex, get_del, command,
  store_exchange, valid_url, build_authorization_url, remote, exchange_code, fetch_google_profile,
  fetch_user_profile,
}
use yaima.OauthStore.OneTime.{IsUp}
use yaima.Routes.{
  Response, healthy, CallbackParams, handle_authorize, handle_callback, resolve_provider,
}
use yaima.Routes.Exchange.{IsSession, callback-IsSession}
use yaima.Tests.Encoding.{
  pending_to_string, pending_from_str, auth_to_string, auth_from_str, auth_round,
}

abbrev reading_env : Env Store
reading_env = record env {
  json = record json {
    pending_to_string = pending_to_string;
    pending_from_str = pending_from_str;
    auth_to_string = auth_to_string;
    auth_from_str = auth_from_str;
  };
}

up : IsUp reading_env
up = record { pool = λ n. refl; commands = λ n. refl }

abbrev away : World Store
away = (handle_authorize reading_env config "google" start).1

abbrev returning : CallbackParams
returning = record {
  code = some "code";
  state = some "csrf";
  error = none;
  error_description = none;
}

abbrev came_back : Outcome AppError Response × World Store
came_back = handle_callback reading_env config "google" returning away

abbrev response : Response
response = value_or healthy came_back.0

callback_runs :
    handle_callback reading_env config "google" returning away ≡ (ok response, came_back.1)
unfolding dotted handle_authorize handle_callback resolve_provider from_slug build_authorization_url
    exchange_code fetch_user_profile fetch_google_profile remote valid_url insert take read_state
    get_connection set_ex get_del command store_exchange login_or_register_oauth resolve_user
    existing_or_new create_from_oauth find_by_oauth_identity find_by_email find_local_credential
    link_oauth_account issue_tokens generate_access_token create_refresh_token generate_opaque_token
    hash_refresh_token insert_user insert_refresh_token select_user_by_identity select_user_by_email
    select_local_credential insert_oauth_credential provider to_string ◌>>=◌ map_err query
callback_runs = refl

prompt : (n : ℕ) → reading_env.now (suc n) / nanos < reading_env.now n / nanos + exchange_ttl_secs
prompt n = omega arith

callback-IsSession_example : IsSession reading_env config response came_back.1
callback-IsSession_example =
    callback-IsSession reading_env config list_store-IsStore up auth_round prompt "google" returning
      away response came_back.1 callback_runs
