-- ===== src/Routes/Sessions.antt =====
-- The refresh tokens across requests, after a refresh, a logout, a change of password and a
-- deactivation.
use mathlib.Core.Path.{subst}
use yaima.Base.{String, ◌≡◌, ◌⊎◌, List, string_eq}
use yaima.Config.{Config}
use yaima.Models.{Uuid, Claims, AuthResponse, ChangePasswordRequest}
use yaima.Errors.{SqlxError, AppError, database, refresh_token_invalid}
use yaima.External.{Env}
use yaima.Program.{World, Action, err, pure, ◌>>=◌, ◌>>◌}
use yaima.Program.Keeps.{Keeps}
use yaima.Program.Inversion.{Returns, after, pure-Returns, Keeps-Returns}
use yaima.Tokens.{compute_lookup_key, rotate_refresh_token, revoke_all_user_tokens}
use yaima.Tokens.Spent.{IsSpent, IsOf, IsSpent-statements, IsOf-statements}
use yaima.Tokens.Rotation.{
  rotate_refresh_token-IsRotated, spent_rejected, revoke_all_user_tokens-IsSpent,
}
use yaima.Users
use yaima.Users.Keeps.{change_password-Keeps, deactivate-Keeps}
use yaima.Auth.{refresh, logout}
use yaima.Auth.Keeps.{complete_refresh-Keeps}
use yaima.Middleware.{Request, auth_user, require_user}
use yaima.Middleware.Guards.{require_user_sound, auth_user_sound}
use yaima.Routes
use yaima.Routes.Keeps.{serve_keeps}

module _ {S : Type 0} (env : Env S) (config : Config) where
  -- A token that is refused, whatever requests come first: `REFRESH_TOKEN_INVALID`, or a failure
  -- of the database.
  abbrev pub IsDead : String → World S → Type 0
  IsDead raw w =
      (requests : List (Request × Routes.Endpoint))
      → let w' = Routes.serve env config requests w in
        ((rotate_refresh_token env config raw w').0 ≡ err refresh_token_invalid)
        ⊎ ((e : SqlxError) × ((rotate_refresh_token env config raw w').0 ≡ err (database e)))

  spent-IsDead :
      (raw : String) (w : World S) → IsSpent (compute_lookup_key env config raw) w.db → IsDead raw w
  spent-IsDead raw w h requests =
      spent_rejected env config raw (Routes.serve env config requests w) (
        serve_keeps (IsSpent-statements (compute_lookup_key env config raw)) env config requests w
          h)

  refresh-IsSpent :
      (raw : String) (w : World S) (a : AuthResponse) (w' : World S)
      → Returns (refresh env config raw) w a w'
      → IsSpent (compute_lookup_key env config raw) w'.db
  unfolding refresh
  refresh-IsSpent raw w a w' h = after w a w' _ _ h λ rotated w₁ first rest.
      Keeps-Returns _ w₁ a w'
        (complete_refresh-Keeps (IsSpent-statements (compute_lookup_key env config raw)) env config
          rotated)
        rest (rotate_refresh_token-IsRotated env config raw w rotated w₁ first).now_spent

  -- After a refresh that succeeds, the token that it was given is refused after any requests that are
  -- served in sequence: its rotation answers `REFRESH_TOKEN_INVALID`, or the database fails.
  pub refresh_once :
      (raw : String) (w : World S) (a : AuthResponse) (w' : World S)
      → Returns (refresh env config raw) w a w'
      → IsDead raw w'
  refresh_once raw w a w' h = spent-IsDead raw w' (refresh-IsSpent raw w a w' h)

  -- After a logout that succeeds, every refresh token that was stored for the user is refused after
  -- any requests that are served in sequence: its rotation answers `REFRESH_TOKEN_INVALID`, or the
  -- database fails.
  pub logout_ends_sessions :
      (id : Uuid) (w w' : World S) (raw : String)
      → Returns (logout env config id) w tt w'
      → IsOf id (compute_lookup_key env config raw) w.db
      → IsDead raw w'
  unfolding logout
  logout_ends_sessions id w w' raw h owned =
      spent-IsDead raw w' (revoke_all_user_tokens-IsSpent env config id w w' tt _ h owned)

  -- The token of the caller decodes to the claims.
  abbrev pub Calls : Request → Claims → World S → World S → Type 0
  Calls req claims w w₀ = Returns (auth_user env config req.headers) w claims w₀

  -- The claims that `RequireUser` hands on are those of the caller's token.
  same_caller :
      (req : Request) (c d : Claims) (w w₀ w₁ : World S)
      → Calls req c w w₀
      → Returns (require_user env config req.headers) w d w₁
      → (d.sub ≡ c.sub) × (w₁.db ≡ w.db)
  same_caller req c d w w₀ w₁ calls first =
      let (second, _) = require_user_sound env config req.headers w d w₁ first in
      let (_, same) = auth_user_sound env config req.headers w d w₁ second in (cc, same)

  -- A handler that changes the account of its caller and then revokes the tokens.
  revoking_ends_sessions :
      {A : Type 0} (m : Uuid → Action S AppError A) (answer : Routes.Response) (req : Request)
      (c : Claims) (w w₀ w' : World S) (r : Routes.Response) (raw : String)
      → Keeps (IsOf c.sub (compute_lookup_key env config raw)) (m c.sub)
      → Calls req c w w₀
      → Returns
          (do
            claims ← require_user env config req.headers
            m claims.sub
            revoke_all_user_tokens env config claims.sub
            pure answer)
          w
          r
          w'
      → IsOf c.sub (compute_lookup_key env config raw) w.db
      → IsDead raw w'
  revoking_ends_sessions m answer req c w w₀ w' r raw kept calls h owned =
      let key : String = compute_lookup_key env config raw in
      after w r w' _ _ h λ d w₁ first h. after w₁ r w' _ _ h λ _ w₂ changed h.
        after w₂ r w' _ _ h λ u w₃ revoked h.
          let (own, same) = same_caller req c d w w₀ w₁ calls first in
          let owned₁ : IsOf d.sub key w₁.db = rw (own, same) owned in
          let kept₁ : Keeps (IsOf d.sub key) (m d.sub) = rw own kept in
          let spent : IsSpent key w₃.db =
            revoke_all_user_tokens-IsSpent env config d.sub w₂ w₃ u key revoked
              (Keeps-Returns (m d.sub) w₁ _ w₂ kept₁ changed owned₁) in
          spent-IsDead raw w'
            (subst (λ (x : World S). IsSpent key x.db) (pure-Returns _ w₃ r w' h).1 spent)

  -- After a password change that succeeds, every refresh token that was stored for the caller is
  -- refused after any requests that are served in sequence: its rotation answers
  -- `REFRESH_TOKEN_INVALID`, or the database fails.
  pub change_password_ends_sessions :
      (req : Request) (body : ChangePasswordRequest) (c : Claims) (w w₀ w' : World S)
      (r : Routes.Response) (raw : String)
      → Calls req c w w₀
      → Returns (Routes.handle_change_password env config req body) w r w'
      → IsOf c.sub (compute_lookup_key env config raw) w.db
      → IsDead raw w'
  unfolding Routes.handle_change_password
  change_password_ends_sessions req body c w w₀ w' r raw calls h owned =
      revoking_ends_sessions
        (λ id. Users.change_password env id body.current_password body.new_password)
        (Routes.message "Password updated successfully") req c w w₀ w' r raw
        (change_password-Keeps (IsOf-statements c.sub (compute_lookup_key env config raw)) env c.sub
          _ _)
        calls h owned

  -- After the caller's account is deactivated, every refresh token that was stored for it is refused
  -- after any requests that are served in sequence: its rotation answers `REFRESH_TOKEN_INVALID`, or
  -- the database fails.
  pub deactivation_ends_sessions :
      (req : Request) (c : Claims) (w w₀ w' : World S) (r : Routes.Response) (raw : String)
      → Calls req c w w₀
      → Returns (Routes.handle_deactivate_account env config req) w r w'
      → IsOf c.sub (compute_lookup_key env config raw) w.db
      → IsDead raw w'
  unfolding Routes.handle_deactivate_account
  deactivation_ends_sessions req c w w₀ w' r raw calls h owned =
      revoking_ends_sessions (λ id. Users.deactivate env id) (Routes.message "Account deactivated")
        req c w w₀ w' r raw
        (deactivate-Keeps (IsOf-statements c.sub (compute_lookup_key env config raw)) env c.sub)
        calls h owned
