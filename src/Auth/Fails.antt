-- ===== src/Auth/Fails.antt =====
-- The errors of the operations of services/auth.rs and services/admin.rs.
use yaima.Base.{String, Option, none, some}
use yaima.Config.{Config}
use yaima.Models.{Uuid, Role, User, AuthMethod, UserView}
use yaima.Errors.{
  SqlxError, AppError, database, hashing, email_taken, username_taken, user_not_found,
  invalid_credentials, account_disabled, forbidden, refresh_token_invalid, token_invalid,
}
use yaima.External.{Env}
use yaima.Program.Fails.{Fails, pure-Fails, fails_rules}
use yaima.Users.{OAuthProfile}
use yaima.Users.Fails.{user_fails, create_from_oauth-Fails}
use yaima.Tokens.Fails.{token_fails}
use yaima.Auth.{
  update_user_role, issue_tokens, register, login, complete_refresh, refresh, logout,
  existing_or_new, resolve_user, login_or_register_oauth,
}

module _ {Q : AppError → Type 0} {S : Type 0} (env : Env S)
    (db : (e : SqlxError) → Q (database e)) where
  pub update_user_role-Fails :
      (admin target : Uuid) (role : Role)
      → Q forbidden
      → Q user_not_found
      → Fails Q (update_user_role env admin target role)
  unfolding update_user_role
  update_user_role-Fails admin target role barred missing = search (fails_rules, user_fails)

  module _ (config : Config) where
    pub logout-Fails : (id : Uuid) → Fails Q (logout env config id)
    unfolding logout
    logout-Fails id = search token_fails

    existing_or_new-Fails :
        (profile : OAuthProfile) (o : Option User)
        → Q email_taken
        → Fails Q (existing_or_new env config profile o)
    unfolding existing_or_new
    existing_or_new-Fails profile none taken = create_from_oauth-Fails env db _ _ taken
    existing_or_new-Fails profile (some u) taken = pure-Fails u

    resolve_user-Fails :
        (profile : OAuthProfile) (o : Option User)
        → Q email_taken
        → Fails Q (resolve_user env config profile o)
    unfolding resolve_user
    resolve_user-Fails profile none taken =
        search (fails_rules, user_fails, existing_or_new-Fails) depth 9
    resolve_user-Fails profile (some u) taken = pure-Fails u

    module _ (bad : Q token_invalid) where
      issue_tokens-Fails :
          (id : Uuid) (email name : String) (role : Role) (m : AuthMethod) (view : UserView)
          → Fails Q (issue_tokens env config id email name role m view)
      unfolding issue_tokens
      issue_tokens-Fails id email name role m view = search (fails_rules, token_fails) depth 9

      pub register-Fails :
          (email username password : String)
          → Q invalid_credentials
          → Q hashing
          → Q email_taken
          → Q username_taken
          → Fails Q (register env config email username password)
      unfolding register
      register-Fails email username password wrong h taken used =
          search (fails_rules, user_fails, issue_tokens-Fails) depth 9

      complete_refresh-Fails :
          (rotated : String × Uuid)
          → Q user_not_found
          → Q account_disabled
          → Fails Q (complete_refresh env config rotated)
      unfolding complete_refresh
      complete_refresh-Fails rotated missing disabled =
          search (fails_rules, user_fails, token_fails) depth 9

      pub refresh-Fails :
          (raw : String)
          → Q refresh_token_invalid
          → Q user_not_found
          → Q account_disabled
          → Fails Q (refresh env config raw)
      unfolding refresh
      refresh-Fails raw refused missing disabled =
          search (fails_rules, token_fails, complete_refresh-Fails)

      module _ (disabled : Q account_disabled) where
        pub login-Fails :
            (email password : String)
            → Q invalid_credentials
            → Q hashing
            → Fails Q (login env config email password)
        unfolding login
        login-Fails email password wrong h =
            search (fails_rules, user_fails, issue_tokens-Fails) depth 14

        pub login_or_register_oauth-Fails :
            (profile : OAuthProfile)
            → Q email_taken
            → Fails Q (login_or_register_oauth env config profile)
        unfolding login_or_register_oauth
        login_or_register_oauth-Fails profile taken =
            search (fails_rules, user_fails, issue_tokens-Fails, resolve_user-Fails) depth 10

pub ruleset auth_fails = (
  update_user_role-Fails, logout-Fails, register-Fails, refresh-Fails, login-Fails,
  login_or_register_oauth-Fails,
)
