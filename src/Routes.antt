-- ===== src/Routes.antt =====
-- routes/: the handlers of the endpoints and their routing. A request comes with its body, path
-- and query already parsed by axum and serde; a handler's extractors run before it, in order.
pub mod Keeps
pub mod Consistent
pub mod Sessions
pub mod Refinement
pub mod Overlap
pub mod Access
pub mod Documented
pub mod Exchange
pub mod Failures
pub mod Statuses
use Prim.Native.String.{◌++◌}
use yaima.Base.{ℕ, String, Option, none, some, List, [], ◌∷◌}
use yaima.Config.{
  Config, OAuthProvider, OAuthProviderConfig, OAuthConfig, from_slug, to_string, provider,
}
use yaima.Models.{
  Uuid, Role, Claims, User, LocalCredential, AuthResponse, UserResponse, UserView, user_response,
  MessageResponse, OAuthConnection, RegisterRequest, LoginRequest, RefreshRequest,
  ChangePasswordRequest, ExchangeRequest, UpdateRoleRequest,
}
use yaima.Errors.{
  AppError, OAuthError, oauth_error, rate_limited, invalid_state, unknown_provider,
  provider_not_configured, provider_denied, exchange_code_invalid,
}
use yaima.External.{Env}
use yaima.Program.{World, Outcome, Action, pure, raise, ok_or, raise_if, ◌>>=◌, ◌>>◌, map_err}
use yaima.Users
use yaima.Users.{find_by_id, find_local_credential, list_oauth_connections, unlink_oauth_account}
use yaima.Tokens.{generate_opaque_token, revoke_all_user_tokens}
use yaima.Auth
use yaima.OauthStore.{
  build_authorization_url, exchange_code, fetch_user_profile, store_exchange, take_exchange,
}
use yaima.RateLimit.{RateLimiter, Verdict, allowed, limited, check}
use yaima.Middleware.{
  Request, auth_user, require_user, require_admin, extract_client_ip, endpoint_key, or_else,
}

pub record CallbackParams : Type 0 where
  pub code : Option String
  pub state : Option String
  pub error : Option String
  pub error_description : Option String

-- What a handler answers on success.
pub data Response : Type 0 where
  created : AuthResponse → Response
  authenticated : AuthResponse → Response
  message : String → Response
  redirect : String → Response
  connections : List OAuthConnection → Response
  profile : UserResponse → Response
  healthy : Response

-- An endpoint with its parsed arguments.
pub data Endpoint : Type 0 where
  register : RegisterRequest → Endpoint
  login : LoginRequest → Endpoint
  refresh : RefreshRequest → Endpoint
  session : ExchangeRequest → Endpoint
  logout : Endpoint
  authorize : (slug : String) → Endpoint
  callback : (slug : String) → CallbackParams → Endpoint
  list_connections : Endpoint
  unlink_connection : (slug : String) → Endpoint
  get_me : Endpoint
  change_password : ChangePasswordRequest → Endpoint
  deactivate_account : Endpoint
  update_user_role : (target_id : Uuid) → UpdateRoleRequest → Endpoint
  health : Endpoint

module _ {S : Type 0} (env : Env S) (config : Config) where
  -- `?` on a result of the OAuth functions.
  abbrev from_oauth : {A : Type 0} → Action S OAuthError A → Action S AppError A
  from_oauth = map_err oauth_error

  unfoldable pub resolve_provider : String → Action S AppError OAuthProvider
  resolve_provider slug = ok_or (from_slug slug) (oauth_error (unknown_provider slug))

  unfoldable pub handle_register : RegisterRequest → Action S AppError Response
  handle_register req = do
    response ← Auth.register env config req.email req.username req.password
    pure (created response)

  unfoldable pub handle_login : LoginRequest → Action S AppError Response
  handle_login req = do
    response ← Auth.login env config req.email req.password
    pure (authenticated response)

  unfoldable pub handle_refresh : RefreshRequest → Action S AppError Response
  handle_refresh req = do
    response ← Auth.refresh env config req.refresh_token
    pure (authenticated response)

  unfoldable pub handle_session : ExchangeRequest → Action S AppError Response
  handle_session req = do
    payload ← from_oauth (take_exchange env req.code)
    auth ← ok_or (env.json.auth_from_str payload) (oauth_error exchange_code_invalid)
    pure (authenticated auth)

  unfoldable pub handle_logout : Request → Action S AppError Response
  handle_logout req = do
    claims ← auth_user env config req.headers
    Auth.logout env config claims.sub
    pure (message "Logged out successfully")

  -- The configuration of a provider, or 503.
  abbrev configured : OAuthProvider → Action S AppError OAuthProviderConfig
  configured p = ok_or (provider config.oauth p) (oauth_error (provider_not_configured p))

  unfoldable pub handle_authorize : String → Action S AppError Response
  handle_authorize slug = do
    p ← resolve_provider slug
    provider_cfg ← configured p
    url ← from_oauth (build_authorization_url env p provider_cfg)
    pure (redirect url)

  abbrev pub denied : Option String → Option String → Action S AppError Unit
  denied none detail = pure tt
  denied (some error) detail =
      raise (oauth_error (provider_denied error (or_else detail "no detail provided")))

  -- `serde_json::to_string` of an `AuthResponse` does not fail.
  unfoldable pub handle_callback : String → CallbackParams → Action S AppError Response
  handle_callback slug params = do
    denied params.error params.error_description
    code ← ok_or params.code (oauth_error invalid_state)
    csrf_state ← ok_or params.state (oauth_error invalid_state)
    p ← resolve_provider slug
    provider_cfg ← configured p
    access_token ← from_oauth (exchange_code env p provider_cfg code csrf_state)
    identity ← from_oauth (fetch_user_profile env p access_token)
    auth ← Auth.login_or_register_oauth env config identity
    one_time_code ← generate_opaque_token env
    from_oauth (store_exchange env one_time_code (env.json.auth_to_string auth))
    pure (redirect ("/auth/success?code=" ++ one_time_code))

  unfoldable pub handle_list_connections : Request → Action S AppError Response
  handle_list_connections req = do
    claims ← require_user env config req.headers
    linked ← list_oauth_connections env claims.sub
    pure (connections linked)

  unfoldable pub handle_unlink_connection : Request → String → Action S AppError Response
  handle_unlink_connection req slug = do
    claims ← require_user env config req.headers
    p ← resolve_provider slug
    unlink_oauth_account env claims.sub p
    pure (message ("Provider '" ++ to_string p ++ "' unlinked successfully"))

  -- The view of a user with the credential that is stored for it.
  unfoldable pub view_of : User → Action S AppError Response
  view_of user = do
    credential ← find_local_credential env user.id
    pure (
        profile (user_response env.rfc3339 (record { user = user; local_credential = credential })))

  unfoldable pub handle_get_me : Request → Action S AppError Response
  handle_get_me req = do
    claims ← require_user env config req.headers
    user ← find_by_id env claims.sub
    view_of user

  unfoldable pub handle_change_password :
      Request → ChangePasswordRequest → Action S AppError Response
  handle_change_password req body = do
    claims ← require_user env config req.headers
    Users.change_password env claims.sub body.current_password body.new_password
    revoke_all_user_tokens env config claims.sub
    pure (message "Password updated successfully")

  unfoldable pub handle_deactivate_account : Request → Action S AppError Response
  handle_deactivate_account req = do
    claims ← require_user env config req.headers
    Users.deactivate env claims.sub
    revoke_all_user_tokens env config claims.sub
    pure (message "Account deactivated")

  unfoldable pub handle_update_user_role :
      Request → Uuid → UpdateRoleRequest → Action S AppError Response
  handle_update_user_role req target_id body = do
    claims ← require_admin env config req.headers
    user ← Auth.update_user_role env claims.sub target_id body.role
    view_of user

  abbrev pub limiter : RateLimiter
  limiter = record {
    max_requests = config.auth_rate_limit_max;
    window_secs = config.auth_rate_limit_window_secs;
  }

  abbrev pub proceed : Verdict → Action S AppError Response → Action S AppError Response
  proceed (allowed remaining) next = next
  proceed (limited retry_after) next = raise (rate_limited retry_after)

  -- `rate_limit_middleware`
  unfoldable pub rate_limit_middleware :
      Request → Action S AppError Response → Action S AppError Response
  rate_limit_middleware req next = do
    verdict ← check env limiter (extract_client_ip req.headers) (endpoint_key req)
    proceed verdict next

  -- The routers: four endpoints behind the rate limiter, and the others.
  unfoldable pub route : Request → Endpoint → Action S AppError Response
  route req (register body) = rate_limit_middleware req (handle_register body)
  route req (login body) = rate_limit_middleware req (handle_login body)
  route req (refresh body) = rate_limit_middleware req (handle_refresh body)
  route req (session body) = rate_limit_middleware req (handle_session body)
  route req logout = handle_logout req
  route req (authorize slug) = handle_authorize slug
  route req (callback slug params) = handle_callback slug params
  route req list_connections = handle_list_connections req
  route req (unlink_connection slug) = handle_unlink_connection req slug
  route req get_me = handle_get_me req
  route req (change_password body) = handle_change_password req body
  route req deactivate_account = handle_deactivate_account req
  route req (update_user_role target_id body) = handle_update_user_role req target_id body
  route req health = pure healthy

  -- Requests that are handled one after the other.
  pub serve : List (Request × Endpoint) → World S → World S
  serve [] w = w
  serve ((req, endpoint) ∷ rest) w = serve rest (route req endpoint w).1
