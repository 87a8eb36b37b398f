-- ===== src/Tests/Oauth.antt =====
-- A login by a profile of Google, of an address that is registered, and the end of its link.
use yaima.Base.{◌≡◌, refl, none, some}
use yaima.Config.{google}
use yaima.Models.{AuthResponse}
use yaima.Errors.{AppError}
use yaima.Program.{World, Outcome, ok, ◌>>=◌, map_err, query, transaction}
use yaima.Valkey.{Store}
use yaima.Sample.{env, config, value_or, no_response, dotted}
use yaima.Db.{
  insert_user, insert_local_credential, insert_refresh_token, select_user_by_identity,
  select_user_by_email, select_local_credential, insert_oauth_credential, delete_oauth_credential,
}
use yaima.Users.{
  OAuthProfile, create, hash_password, insert_account, find_by_oauth_identity, find_by_email,
  find_local_credential, link_oauth_account,
}
use yaima.Tokens.{
  generate_access_token, create_refresh_token, generate_opaque_token, hash_refresh_token,
}
use yaima.Auth.{register, issue_tokens, existing_or_new, resolve_user, login_or_register_oauth}
use yaima.Auth.Oauth.{IsOauthLogin, login_or_register_oauth-IsOauthLogin}
use yaima.Users.{unlink_oauth_account}
use yaima.Users.Unlinking.{IsUnlinked, unlink_oauth_account-IsUnlinked}
use yaima.Auth.Linked.{IsBound, login_or_register_oauth-IsBound}
use yaima.Tests.{registered}
use yaima.Tests.Registry.{registered-IsConsistent}

abbrev profile : OAuthProfile
profile = record {
  provider = google;
  provider_user_id = "g-1";
  email = "alice@example.com";
  display_name = some "Alice";
  avatar_url = none;
}

abbrev entered : Outcome AppError AuthResponse × World Store
entered = login_or_register_oauth env config profile registered

abbrev answer : AuthResponse
answer = value_or no_response entered.0

entered_runs : login_or_register_oauth env config profile registered ≡ (ok answer, entered.1)
unfolding dotted register issue_tokens create hash_password insert_account insert_user
    insert_local_credential insert_refresh_token generate_access_token create_refresh_token
    generate_opaque_token hash_refresh_token ◌>>=◌ map_err query transaction login_or_register_oauth
    resolve_user existing_or_new find_by_oauth_identity find_by_email find_local_credential
    link_oauth_account select_user_by_identity select_user_by_email select_local_credential
    insert_oauth_credential
entered_runs = refl

login_or_register_oauth-IsOauthLogin_example : IsOauthLogin env config profile registered.db answer
login_or_register_oauth-IsOauthLogin_example =
    login_or_register_oauth-IsOauthLogin env config profile registered answer entered.1 entered_runs

abbrev unlinked : World Store
unlinked = (unlink_oauth_account env 101 google entered.1).1

unlink_runs : unlink_oauth_account env 101 google entered.1 ≡ (ok tt, unlinked)
unfolding dotted register issue_tokens create hash_password insert_account insert_user
    insert_local_credential insert_refresh_token generate_access_token create_refresh_token
    generate_opaque_token hash_refresh_token ◌>>=◌ map_err query transaction login_or_register_oauth
    resolve_user existing_or_new find_by_oauth_identity find_by_email find_local_credential
    link_oauth_account select_user_by_identity select_user_by_email select_local_credential
    insert_oauth_credential unlink_oauth_account delete_oauth_credential
unlink_runs = refl

unlink_oauth_account-IsUnlinked_example : IsUnlinked env 101 google entered.1.db unlinked.db
unlink_oauth_account-IsUnlinked_example =
    unlink_oauth_account-IsUnlinked env 101 google entered.1 unlinked unlink_runs

login_or_register_oauth-IsBound_example : IsBound env config profile answer entered.1
login_or_register_oauth-IsBound_example =
    login_or_register_oauth-IsBound env config profile registered answer entered.1
      registered-IsConsistent refl entered_runs
