-- ===== src/Auth/Keeps.antt =====
-- The operations of services/auth.rs and services/admin.rs keep what the statements keep.
use yaima.Base.{String, Option, none, some}
use yaima.Config.{Config}
use yaima.Models.{Uuid, Role, User, AuthMethod, UserView}
use yaima.External.{Env}
use yaima.Db.Statements.{Statements}
use yaima.Db.{Db}
use yaima.Program.Keeps.{Keeps, pure-Keeps, keeps_rules}
use yaima.Users.{OAuthProfile}
use yaima.Users.Keeps.{user_rules, create_from_oauth-Keeps}
use yaima.Tokens.Keeps.{token_rules}
use yaima.Auth.{
  update_user_role, issue_tokens, register, login, complete_refresh, refresh, logout,
  existing_or_new, resolve_user, login_or_register_oauth,
}

module _ {P : Db → Type 0} (kept : Statements P) {S : Type 0} (env : Env S) where
  pub update_user_role-Keeps :
      (admin target : Uuid) (role : Role) → Keeps P (update_user_role env admin target role)
  unfolding update_user_role
  update_user_role-Keeps admin target role = search (keeps_rules, user_rules)

  module _ (config : Config) where
    issue_tokens-Keeps :
        (id : Uuid) (email name : String) (role : Role) (m : AuthMethod) (view : UserView)
        → Keeps P (issue_tokens env config id email name role m view)
    unfolding issue_tokens
    issue_tokens-Keeps id email name role m view = search (keeps_rules, token_rules)

    pub register-Keeps :
        (email username pass : String) → Keeps P (register env config email username pass)
    unfolding register
    register-Keeps email username pass =
        search (keeps_rules, user_rules, issue_tokens-Keeps) depth 8

    pub login-Keeps : (email pass : String) → Keeps P (login env config email pass)
    unfolding login
    login-Keeps email pass = search (keeps_rules, user_rules, issue_tokens-Keeps) depth 10

    pub complete_refresh-Keeps :
        (rotated : String × Uuid) → Keeps P (complete_refresh env config rotated)
    unfolding complete_refresh
    complete_refresh-Keeps rotated = search (keeps_rules, user_rules, token_rules) depth 9

    pub refresh-Keeps : (raw : String) → Keeps P (refresh env config raw)
    unfolding refresh
    refresh-Keeps raw = search (keeps_rules, token_rules, complete_refresh-Keeps)

    pub logout-Keeps : (id : Uuid) → Keeps P (logout env config id)
    unfolding logout
    logout-Keeps id = search token_rules

    existing_or_new-Keeps :
        (profile : OAuthProfile) (o : Option User) → Keeps P (existing_or_new env config profile o)
    unfolding existing_or_new
    existing_or_new-Keeps profile (some u) = pure-Keeps u
    existing_or_new-Keeps profile none = create_from_oauth-Keeps kept env _ _

    resolve_user-Keeps :
        (profile : OAuthProfile) (o : Option User) → Keeps P (resolve_user env config profile o)
    unfolding resolve_user
    resolve_user-Keeps profile (some u) = pure-Keeps u
    resolve_user-Keeps profile none = search (keeps_rules, user_rules, existing_or_new-Keeps)

    pub login_or_register_oauth-Keeps :
        (profile : OAuthProfile) → Keeps P (login_or_register_oauth env config profile)
    unfolding login_or_register_oauth
    login_or_register_oauth-Keeps profile =
        search (keeps_rules, user_rules, resolve_user-Keeps, issue_tokens-Keeps) depth 8

pub ruleset auth_rules = (
  update_user_role-Keeps, register-Keeps, login-Keeps, refresh-Keeps, logout-Keeps,
  login_or_register_oauth-Keeps,
)
