-- ===== src/Tests/Sessions.antt =====
-- The ends of sessions and the changes of roles, in the sample world after a registration.
use yaima.Base.{true, String, ◌≡◌, refl, List, [], ◌∷◌, some, arith, string_eq}
use yaima.Models.{admin, ChangePasswordRequest, UpdateRoleRequest}
use yaima.Errors.{AppError, forbidden}
use yaima.Program.{World, Outcome, ok, err, ◌>>=◌, map_err, query, transaction}
use yaima.Valkey.{Store}
use yaima.Sample.{env, config, value_or, dotted, alice}
use yaima.Db.{
  RefreshTokenRow, insert_user, insert_local_credential, insert_refresh_token, revoke_user_tokens,
  select_local_credential, update_password_hash, deactivate_user, update_user_role,
}
use yaima.Users
use yaima.Users.{create, hash_password, insert_account, find_local_credential, verify_password}
use yaima.Tokens.{
  generate_access_token, validate_access_token, create_refresh_token, generate_opaque_token,
  hash_refresh_token, revoke_all_user_tokens, compute_lookup_key,
}
use yaima.Tokens.Spent.{IsOf}
use yaima.Auth
use yaima.Auth.{register, issue_tokens, logout}
use yaima.Middleware.{
  Request, Method, put, auth_user, require_user, require_admin, require_role, extract_bearer,
}
use yaima.Models.{is_at_least}
use yaima.Routes
use yaima.Routes.Sessions.{
  IsDead, logout_ends_sessions, change_password_ends_sessions, deactivation_ends_sessions,
}
use yaima.Routes.Access.{
  IsRoleChange, update_user_role-IsRoleChange, not_admin_forbidden, own_role_forbidden,
}
use yaima.Tests.{registered, welcome}

abbrev pub no_row : RefreshTokenRow
no_row = record {
  id = 0;
  user_id = 0;
  token_hash = "";
  lookup_key = "";
  expires_at = 0;
  revoked = true;
}

abbrev pub first_row : List RefreshTokenRow → RefreshTokenRow
first_row [] = no_row
first_row (t ∷ ts) = t

alice_owns : IsOf 101 (compute_lookup_key env config welcome.refresh_token) registered.db
unfolding dotted register issue_tokens create hash_password insert_account insert_user
    insert_local_credential insert_refresh_token generate_access_token create_refresh_token
    generate_opaque_token hash_refresh_token ◌>>=◌ map_err query transaction
alice_owns = record { row = first_row registered.db.refresh_tokens; found = refl; holds = refl }

logout_runs : logout env config 101 registered ≡ (ok tt, (logout env config 101 registered).1)
unfolding dotted register issue_tokens create hash_password insert_account insert_user
    insert_local_credential insert_refresh_token generate_access_token create_refresh_token
    generate_opaque_token hash_refresh_token ◌>>=◌ map_err query transaction logout
    revoke_all_user_tokens revoke_user_tokens
logout_runs = refl

logout_ends_sessions_example :
    IsDead env config welcome.refresh_token (logout env config 101 registered).1
logout_ends_sessions_example =
    logout_ends_sessions env config 101 registered (logout env config 101 registered).1
      welcome.refresh_token logout_runs alice_owns

abbrev with_token : String → Method → Request
with_token token method = record {
  method = method;
  path = "/users/me";
  headers = ("authorization", some token) ∷ [];
}

abbrev from_alice : Method → Request
from_alice = with_token "Bearer alice-token"

abbrev from_root : Method → Request
from_root = with_token "Bearer root-token"

abbrev admitted : World Store
admitted = (auth_user env config (from_alice put).headers registered).1

alice_calls : auth_user env config (from_alice put).headers registered ≡ (ok alice, admitted)
unfolding dotted register issue_tokens create hash_password insert_account insert_user
    insert_local_credential insert_refresh_token generate_access_token create_refresh_token
    generate_opaque_token hash_refresh_token ◌>>=◌ map_err query transaction auth_user
    extract_bearer validate_access_token
alice_calls = refl

abbrev new_password : ChangePasswordRequest
new_password = record { current_password = "hunter2secret"; new_password = "correct horse" }

abbrev changed : Outcome AppError Routes.Response × World Store
changed = Routes.handle_change_password env config (from_alice put) new_password registered

abbrev change_answer : Routes.Response
change_answer = value_or Routes.healthy changed.0

change_runs :
    Routes.handle_change_password env config (from_alice put) new_password registered
    ≡ (ok change_answer, changed.1)
unfolding dotted register issue_tokens create hash_password insert_account insert_user
    insert_local_credential insert_refresh_token generate_access_token create_refresh_token
    generate_opaque_token hash_refresh_token ◌>>=◌ map_err query transaction auth_user
    extract_bearer validate_access_token require_user require_role is_at_least
    Routes.handle_change_password Users.change_password find_local_credential verify_password
    select_local_credential update_password_hash revoke_all_user_tokens revoke_user_tokens
change_runs = refl

change_password_ends_sessions_example : IsDead env config welcome.refresh_token changed.1
change_password_ends_sessions_example =
    change_password_ends_sessions env config (from_alice put) new_password alice registered admitted
      changed.1 change_answer welcome.refresh_token alice_calls change_runs alice_owns

abbrev left : Outcome AppError Routes.Response × World Store
left = Routes.handle_deactivate_account env config (from_alice put) registered

abbrev leave_answer : Routes.Response
leave_answer = value_or Routes.healthy left.0

leave_runs :
    Routes.handle_deactivate_account env config (from_alice put) registered
    ≡ (ok leave_answer, left.1)
unfolding dotted register issue_tokens create hash_password insert_account insert_user
    insert_local_credential insert_refresh_token generate_access_token create_refresh_token
    generate_opaque_token hash_refresh_token ◌>>=◌ map_err query transaction auth_user
    extract_bearer validate_access_token require_user require_role is_at_least
    Routes.handle_deactivate_account Users.deactivate deactivate_user revoke_all_user_tokens
    revoke_user_tokens
leave_runs = refl

deactivation_ends_sessions_example : IsDead env config welcome.refresh_token left.1
deactivation_ends_sessions_example =
    deactivation_ends_sessions env config (from_alice put) alice registered admitted left.1
      leave_answer welcome.refresh_token alice_calls leave_runs alice_owns

abbrev promotion : UpdateRoleRequest
promotion = record { role = admin }

abbrev promoted : Outcome AppError Routes.Response × World Store
promoted = Routes.handle_update_user_role env config (from_root put) 101 promotion registered

abbrev promotion_answer : Routes.Response
promotion_answer = value_or Routes.healthy promoted.0

promotion_runs :
    Routes.handle_update_user_role env config (from_root put) 101 promotion registered
    ≡ (ok promotion_answer, promoted.1)
unfolding dotted register issue_tokens create hash_password insert_account insert_user
    insert_local_credential insert_refresh_token generate_access_token create_refresh_token
    generate_opaque_token hash_refresh_token ◌>>=◌ map_err query transaction auth_user
    extract_bearer validate_access_token require_admin require_role is_at_least
    Routes.handle_update_user_role Auth.update_user_role Users.update_role update_user_role
    Routes.view_of find_local_credential select_local_credential
promotion_runs = refl

update_user_role-IsRoleChange_example :
    IsRoleChange env config (from_root put).headers 101 admin registered promoted.1.db
update_user_role-IsRoleChange_example =
    update_user_role-IsRoleChange env config (from_root put) 101 promotion registered
      promotion_answer promoted.1 promotion_runs

not_admin_forbidden_example :
    Routes.handle_update_user_role env config (from_alice put) 1 promotion registered
    ≡ (err forbidden, admitted)
not_admin_forbidden_example =
    not_admin_forbidden env config (from_alice put) 1 promotion alice registered admitted
      alice_calls (λ e. ground (arith, e))

own_role_forbidden_example :
    Routes.handle_update_user_role env config (from_alice put) 101 promotion registered
    ≡ (err forbidden, admitted)
own_role_forbidden_example =
    own_role_forbidden env config (from_alice put) promotion alice registered admitted alice_calls
