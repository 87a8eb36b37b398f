-- ===== src/Tests.antt =====
-- Runs of the program in the sample world, and the properties at them.
pub mod Sessions
pub mod Accounts
pub mod Oauth
pub mod Reuse
pub mod Registry
pub mod Window
pub mod Overlap
pub mod Answers
pub mod Life
pub mod Exchange
pub mod Welcome
pub mod Parts
pub mod Encoding
use yaima.Base.{
  ℕ, String, ◌≡◌, ◌≢◌, refl, List, [], ◌∷◌, some, none, Option, arith, ltb, ◌==◌, string_eq,
}
use yaima.Config.{Config, oauth_from_env}
use yaima.Models.{AuthResponse, Role, admin, user, guest, is_at_least}
use yaima.Errors.{AppError}
use yaima.External.{Env}
use yaima.Program.{World, Outcome, ok, err, ◌>>=◌, map_err, query, transaction}
use yaima.Program.Inversion.{Returns}
use yaima.Valkey.{Store}
use yaima.Sample.{env, config, start, value_or, no_response, dotted, alice, root}
use yaima.Db.{
  Db, insert_user, insert_local_credential, insert_refresh_token, select_refresh_token, select_user,
  select_user_by_email, select_local_credential, revoke_token, revoke_user_tokens,
  update_password_hash, deactivate_user, update_user_role, RefreshTokenRow,
}
use yaima.Users
use yaima.Users.{
  create, hash_password, insert_account, find_by_id, find_by_email, find_local_credential,
  verify_password, change_password, update_role, deactivate,
}
use yaima.Tokens.{
  generate_access_token, validate_access_token, create_refresh_token, generate_opaque_token,
  hash_refresh_token, rotate_refresh_token, rotate_live_token, reject_token, revoke_all_user_tokens,
  compute_lookup_key,
}
use yaima.Tokens.Spent.{IsOf, IsSpent}
use yaima.Tokens.Rotation.{IsRotated, rotate_refresh_token-IsRotated}
use yaima.Auth
use yaima.Auth.{register, login, refresh, complete_refresh, logout, issue_tokens}
use yaima.Auth.Login.{IsLogin, login-IsLogin}
use yaima.Auth.Registration.{
  IsAccount, create-IsAccount, create_atomic, IsRegistered, register-IsRegistered,
}
use yaima.Middleware.{
  Request, Method, auth_user, require_user, require_admin, require_role, extract_bearer,
}
use yaima.Routes
use yaima.Routes.Sessions.{
  IsDead, refresh_once, logout_ends_sessions, change_password_ends_sessions,
  deactivation_ends_sessions,
}

abbrev pub registered : World Store
registered = (register env config "alice@example.com" "alice" "hunter2secret" start).1

abbrev pub welcome : AuthResponse
welcome =
    value_or no_response (register env config "alice@example.com" "alice" "hunter2secret" start).0

pub register_runs :
    register env config "alice@example.com" "alice" "hunter2secret" start ≡ (ok welcome, registered)
unfolding dotted register issue_tokens create hash_password insert_account insert_user
    insert_local_credential insert_refresh_token generate_access_token create_refresh_token
    generate_opaque_token hash_refresh_token ◌>>=◌ map_err query transaction
register_runs = refl

register-IsRegistered_example :
    IsRegistered env config "alice@example.com" "alice" "hunter2secret" start.db welcome
      registered.db
register-IsRegistered_example =
    register-IsRegistered env config "alice@example.com" "alice" "hunter2secret" start welcome
      registered register_runs

abbrev logged_in : Outcome AppError AuthResponse × World Store
logged_in = login env config "alice@example.com" "hunter2secret" registered

abbrev back : AuthResponse
back = value_or no_response logged_in.0

login_runs :
    login env config "alice@example.com" "hunter2secret" registered ≡ (ok back, logged_in.1)
unfolding dotted register issue_tokens create hash_password insert_account insert_user
    insert_local_credential insert_refresh_token generate_access_token create_refresh_token
    generate_opaque_token hash_refresh_token ◌>>=◌ map_err query transaction login find_by_email
    find_local_credential verify_password select_user_by_email select_local_credential
login_runs = refl

login-IsLogin_example : IsLogin env config "alice@example.com" "hunter2secret" registered.db back
login-IsLogin_example =
    login-IsLogin env config "alice@example.com" "hunter2secret" registered back logged_in.1
      login_runs

abbrev pub refreshed : Outcome AppError AuthResponse × World Store
refreshed = refresh env config welcome.refresh_token registered

abbrev pub renewed : AuthResponse
renewed = value_or no_response refreshed.0

refresh_runs : refresh env config welcome.refresh_token registered ≡ (ok renewed, refreshed.1)
unfolding dotted register issue_tokens create hash_password insert_account insert_user
    insert_local_credential insert_refresh_token generate_access_token create_refresh_token
    generate_opaque_token hash_refresh_token ◌>>=◌ map_err query transaction refresh
    complete_refresh rotate_refresh_token rotate_live_token find_by_id find_local_credential
    select_refresh_token select_user select_local_credential revoke_token
refresh_runs = refl

refresh_once_example : IsDead env config welcome.refresh_token refreshed.1
refresh_once_example =
    refresh_once env config welcome.refresh_token registered renewed refreshed.1 refresh_runs

abbrev pub rotated : Outcome AppError (String × ℕ) × World Store
rotated = rotate_refresh_token env config welcome.refresh_token registered

pub rotation_runs :
    rotate_refresh_token env config welcome.refresh_token registered
    ≡ (ok (renewed.refresh_token, 101), rotated.1)
unfolding dotted register issue_tokens create hash_password insert_account insert_user
    insert_local_credential insert_refresh_token generate_access_token create_refresh_token
    generate_opaque_token hash_refresh_token ◌>>=◌ map_err query transaction refresh
    complete_refresh rotate_refresh_token rotate_live_token find_by_id find_local_credential
    select_refresh_token select_user select_local_credential revoke_token
rotation_runs = refl

rotate_refresh_token-IsRotated_example :
    IsRotated env config welcome.refresh_token 101 registered rotated.1.db
rotate_refresh_token-IsRotated_example =
    rotate_refresh_token-IsRotated env config welcome.refresh_token registered
      (renewed.refresh_token, 101) rotated.1 rotation_runs
