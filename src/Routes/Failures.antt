-- ===== src/Routes/Failures.antt =====
-- The errors of the handlers in routes/, each under the premises that name its errors.
use yaima.Base.{String, Option, none, some}
use yaima.Config.{Config}
use yaima.Models.{User}
use yaima.Errors.{
  SqlxError, AppError, database, forbidden, token_invalid, token_expired, missing_auth_header,
  rate_limited, oauth_error, unknown_provider, provider_denied,
}
use yaima.External.{Env}
use yaima.Program.{Action}
use yaima.Program.Fails.{Fails, pure-Fails, raise-Fails, fails_rules}
use yaima.Users.Fails.{user_fails}
use yaima.Tokens.Fails.{token_fails}
use yaima.RateLimit.{Verdict, allowed, limited}
use yaima.Middleware.{HeaderMap, require_role, auth_user, require_user, require_admin}
use yaima.Routes

module _ {Q : AppError → Type 0} {S : Type 0} (env : Env S) (config : Config) where
  pub resolve_provider-Fails :
      (s : String)
      → Q (oauth_error (unknown_provider s))
      → Fails Q (Routes.resolve_provider env config s)
  unfolding Routes.resolve_provider
  resolve_provider-Fails s unknown = search fails_rules

  pub denied-Fails :
      (e d : Option String)
      → ((e d : String) → Q (oauth_error (provider_denied e d)))
      → Fails Q (Routes.denied env config e d)
  denied-Fails none d refused = pure-Fails tt
  denied-Fails (some e) d refused = raise-Fails _ (refused e _)

  pub proceed-Fails :
      (v : Verdict) (next : Action S AppError Routes.Response)
      → ((n : _) → Q (rate_limited n))
      → Fails Q next
      → Fails Q (Routes.proceed env config v next)
  proceed-Fails (allowed n) next many f = f
  proceed-Fails (limited n) next many f = raise-Fails _ (many n)

  module _ (header : Q missing_auth_header) (old : Q token_expired) (bad : Q token_invalid) where
    pub auth_user-Fails : (h : HeaderMap) → Fails Q (auth_user env config h)
    unfolding auth_user
    auth_user-Fails h = search (fails_rules, token_fails)

    module _ (barred : Q forbidden) where
      pub require_user-Fails : (h : HeaderMap) → Fails Q (require_user env config h)
      unfolding require_user require_role
      require_user-Fails h = search (fails_rules, auth_user-Fails)

      pub require_admin-Fails : (h : HeaderMap) → Fails Q (require_admin env config h)
      unfolding require_admin require_role
      require_admin-Fails h = search (fails_rules, auth_user-Fails)

  pub view_of-Fails :
      (u : User) → ((e : SqlxError) → Q (database e)) → Fails Q (Routes.view_of env config u)
  unfolding Routes.view_of
  view_of-Fails u db = search (fails_rules, user_fails)
