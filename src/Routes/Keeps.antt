-- ===== src/Routes/Keeps.antt =====
-- Every request keeps the constraints of the schema, whatever fails on the way.
use yaima.Base.{String, Option, none, some, List, [], ◌∷◌}
use yaima.Config.{Config}
use yaima.Models.{
  Uuid, User, RegisterRequest, LoginRequest, RefreshRequest, ExchangeRequest, ChangePasswordRequest,
  UpdateRoleRequest,
}
use yaima.Errors.{AppError}
use yaima.External.{Env}
use yaima.Db.Statements.{Statements}
use yaima.Db.{Db}
use yaima.Program.{World, Action}
use yaima.Program.Keeps.{Keeps, pure-Keeps, raise-Keeps, keeps_rules}
use yaima.Users.Keeps.{user_rules}
use yaima.Tokens.Keeps.{token_rules}
use yaima.Auth.Keeps.{auth_rules}
use yaima.OauthStore.Keeps.{oauth_rules}
use yaima.RateLimit.{Verdict, allowed, limited}
use yaima.RateLimit.Keeps.{check-Keeps}
use yaima.Middleware.{HeaderMap, Request, require_role, auth_user, require_user, require_admin}
use yaima.Routes

module _ {P : Db → Type 0} (kept : Statements P) {S : Type 0} (env : Env S) (config : Config) where
  auth_user-Keeps : (h : HeaderMap) → Keeps P (auth_user env config h)
  unfolding auth_user
  auth_user-Keeps h = search (keeps_rules, token_rules)

  require_user-Keeps : (h : HeaderMap) → Keeps P (require_user env config h)
  unfolding require_user require_role
  require_user-Keeps h = search (keeps_rules, auth_user-Keeps)

  require_admin-Keeps : (h : HeaderMap) → Keeps P (require_admin env config h)
  unfolding require_admin require_role
  require_admin-Keeps h = search (keeps_rules, auth_user-Keeps)

  resolve_provider-Keeps : (s : String) → Keeps P (Routes.resolve_provider env config s)
  unfolding Routes.resolve_provider
  resolve_provider-Keeps s = search keeps_rules

  register-Keeps : (b : RegisterRequest) → Keeps P (Routes.handle_register env config b)
  unfolding Routes.handle_register
  register-Keeps b = search (keeps_rules, auth_rules)

  login-Keeps : (b : LoginRequest) → Keeps P (Routes.handle_login env config b)
  unfolding Routes.handle_login
  login-Keeps b = search (keeps_rules, auth_rules)

  refresh-Keeps : (b : RefreshRequest) → Keeps P (Routes.handle_refresh env config b)
  unfolding Routes.handle_refresh
  refresh-Keeps b = search (keeps_rules, auth_rules)

  session-Keeps : (b : ExchangeRequest) → Keeps P (Routes.handle_session env config b)
  unfolding Routes.handle_session
  session-Keeps b = search (keeps_rules, oauth_rules)

  logout-Keeps : (r : Request) → Keeps P (Routes.handle_logout env config r)
  unfolding Routes.handle_logout
  logout-Keeps r = search (keeps_rules, auth_rules, auth_user-Keeps)

  authorize-Keeps : (s : String) → Keeps P (Routes.handle_authorize env config s)
  unfolding Routes.handle_authorize
  authorize-Keeps s = search (keeps_rules, oauth_rules, resolve_provider-Keeps) depth 8

  denied-Keeps : (e d : Option String) → Keeps P (Routes.denied env config e d)
  denied-Keeps none d = pure-Keeps tt
  denied-Keeps (some e) d = raise-Keeps _

  callback-Keeps :
      (s : String) (p : Routes.CallbackParams) → Keeps P (Routes.handle_callback env config s p)
  unfolding Routes.handle_callback
  callback-Keeps s p =
      search
        (keeps_rules, oauth_rules, auth_rules, token_rules, resolve_provider-Keeps, denied-Keeps)
        depth 14

  list_connections-Keeps : (r : Request) → Keeps P (Routes.handle_list_connections env config r)
  unfolding Routes.handle_list_connections
  list_connections-Keeps r = search (keeps_rules, user_rules, require_user-Keeps)

  unlink_connection-Keeps :
      (r : Request) (s : String) → Keeps P (Routes.handle_unlink_connection env config r s)
  unfolding Routes.handle_unlink_connection
  unlink_connection-Keeps r s =
      search (keeps_rules, user_rules, require_user-Keeps, resolve_provider-Keeps) depth 7

  view_of-Keeps : (u : User) → Keeps P (Routes.view_of env config u)
  unfolding Routes.view_of
  view_of-Keeps u = search (keeps_rules, user_rules)

  get_me-Keeps : (r : Request) → Keeps P (Routes.handle_get_me env config r)
  unfolding Routes.handle_get_me
  get_me-Keeps r = search (keeps_rules, user_rules, require_user-Keeps, view_of-Keeps)

  change_password-Keeps :
      (r : Request) (b : ChangePasswordRequest)
      → Keeps P (Routes.handle_change_password env config r b)
  unfolding Routes.handle_change_password
  change_password-Keeps r b =
      search (keeps_rules, user_rules, token_rules, require_user-Keeps) depth 7

  deactivate_account-Keeps : (r : Request) → Keeps P (Routes.handle_deactivate_account env config r)
  unfolding Routes.handle_deactivate_account
  deactivate_account-Keeps r =
      search (keeps_rules, user_rules, token_rules, require_user-Keeps) depth 7

  update_user_role-Keeps :
      (r : Request) (id : Uuid) (b : UpdateRoleRequest)
      → Keeps P (Routes.handle_update_user_role env config r id b)
  unfolding Routes.handle_update_user_role
  update_user_role-Keeps r id b =
      search (keeps_rules, auth_rules, require_admin-Keeps, view_of-Keeps)

  proceed-Keeps :
      (v : Verdict) (next : Action S AppError Routes.Response)
      → Keeps P next
      → Keeps P (Routes.proceed env config v next)
  proceed-Keeps (allowed n) next k = k
  proceed-Keeps (limited n) next k = raise-Keeps _

  limited-Keeps :
      (r : Request) (next : Action S AppError Routes.Response)
      → Keeps P next
      → Keeps P (Routes.rate_limit_middleware env config r next)
  unfolding Routes.rate_limit_middleware
  limited-Keeps r next k = search (keeps_rules, check-Keeps, proceed-Keeps)

  pub route-Keeps : (req : Request) (e : Routes.Endpoint) → Keeps P (Routes.route env config req e)
  unfolding Routes.route
  route-Keeps req (Routes.register b) = limited-Keeps req _ (register-Keeps b)
  route-Keeps req (Routes.login b) = limited-Keeps req _ (login-Keeps b)
  route-Keeps req (Routes.refresh b) = limited-Keeps req _ (refresh-Keeps b)
  route-Keeps req (Routes.session b) = limited-Keeps req _ (session-Keeps b)
  route-Keeps req Routes.logout = logout-Keeps req
  route-Keeps req (Routes.authorize s) = authorize-Keeps s
  route-Keeps req (Routes.callback s p) = callback-Keeps s p
  route-Keeps req Routes.list_connections = list_connections-Keeps req
  route-Keeps req (Routes.unlink_connection s) = unlink_connection-Keeps req s
  route-Keeps req Routes.get_me = get_me-Keeps req
  route-Keeps req (Routes.change_password b) = change_password-Keeps req b
  route-Keeps req Routes.deactivate_account = deactivate_account-Keeps req
  route-Keeps req (Routes.update_user_role id b) = update_user_role-Keeps req id b
  route-Keeps req Routes.health = pure-Keeps _

  pub serve_keeps :
      (requests : List (Request × Routes.Endpoint)) (w : World S)
      → P w.db
      → P (Routes.serve env config requests w).db
  unfolding Routes.serve
  serve_keeps [] w h = h
  serve_keeps ((req, e) ∷ rest) w h =
      serve_keeps rest (Routes.route env config req e w).1 ((route-Keeps req e).at w h)
