-- ===== src/Routes/Statuses.antt =====
-- The statuses that each endpoint answers with.
use yaima.Base.{ℕ, ◌++◌, Bool, true, false, ◌||◌, ◌==◌, nat_eq, ◌≡◌, List, [], ◌∷◌}
use yaima.Config.{Config}
use yaima.Errors.{AppError, status_code}
use yaima.External.{Env}
use yaima.Program.{Action}
use yaima.Program.Fails.{Fails}
use yaima.Routes
use yaima.Routes.Documented
use yaima.Routes.Documented.{Operation}

abbrev pub is_in : ℕ → List ℕ → Bool
is_in n [] = false
is_in n (m ∷ ms) = m == n || is_in n ms

-- An error whose status is one of those.
abbrev pub HasStatus : List ℕ → AppError → Type 0
HasStatus statuses e = is_in (status_code e) statuses ≡ true

-- The operation that documents an endpoint.
abbrev pub operation : Routes.Endpoint → Operation
operation (Routes.register b) = Documented.register
operation (Routes.login b) = Documented.login
operation (Routes.refresh b) = Documented.refresh
operation (Routes.session b) = Documented.session
operation Routes.logout = Documented.logout
operation (Routes.authorize s) = Documented.authorize
operation (Routes.callback s p) = Documented.callback
operation Routes.list_connections = Documented.list_connections
operation (Routes.unlink_connection s) = Documented.unlink_connection
operation Routes.get_me = Documented.get_me
operation (Routes.change_password b) = Documented.change_password
operation Routes.deactivate_account = Documented.deactivate_account
operation (Routes.update_user_role id b) = Documented.update_user_role
operation Routes.health = Documented.health

-- The error statuses that the documentation of an endpoint leaves out.
abbrev pub undocumented : Routes.Endpoint → List ℕ
undocumented (Routes.register b) = 401 ∷ 429 ∷ 500 ∷ []
undocumented (Routes.login b) = 403 ∷ 429 ∷ 500 ∷ []
undocumented (Routes.refresh b) = 403 ∷ 404 ∷ 429 ∷ 500 ∷ []
undocumented (Routes.session b) = 429 ∷ 503 ∷ []
undocumented Routes.logout = 500 ∷ []
undocumented (Routes.authorize s) = 500 ∷ []
undocumented (Routes.callback s p) = 403 ∷ 409 ∷ 500 ∷ 503 ∷ []
undocumented Routes.list_connections = 403 ∷ 500 ∷ []
undocumented (Routes.unlink_connection s) = 403 ∷ 500 ∷ []
undocumented Routes.get_me = 403 ∷ 404 ∷ 500 ∷ []
undocumented (Routes.change_password b) = 403 ∷ 404 ∷ 500 ∷ []
undocumented Routes.deactivate_account = 403 ∷ 500 ∷ []
undocumented (Routes.update_user_role id b) = 500 ∷ []
undocumented Routes.health = []

abbrev pub error_statuses : Routes.Endpoint → List ℕ
error_statuses e = (operation e).errors ++ undocumented e

module _ {S : Type 0} (env : Env S) (config : Config) where
  abbrev IsWithin : Routes.Endpoint → Action S AppError Routes.Response → Type 0
  IsWithin e = Fails (HasStatus (error_statuses e))
