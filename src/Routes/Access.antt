-- ===== src/Routes/Access.antt =====
-- Who may change a role, and requests that end before their handler.
use yaima.Base.{
  ◌<◌, ◌^◌, ◌/◌, suc, refl, ◌≡◌, ◌≢◌, ap, sym, ◌∙◌, false, some, arith, ◌==◌, nat_eq, find,
  update_where, Bool-cases, beq_refl, inl, inr,
}
use yaima.Config.{Config}
use yaima.Models.{Uuid, OffsetDateTime, Role, admin, Claims, User, UpdateRoleRequest, is_at_least}
use yaima.Models.Roles.{is_at_least-IsHierarchy}
use yaima.Errors.{AppError, forbidden, rate_limited}
use yaima.External.{Env}
use yaima.Db
use yaima.Db.{Db, Answer, answered}
use yaima.Program.{World, Outcome, Action, err, ◌>>=◌}
use yaima.Program.Inversion.{
  Returns, after, after_raise_if, after_query, pure-Returns, ok_or-Returns,
}
use yaima.Users.{update_role}
use yaima.Auth
use yaima.Auth.Login.{find_local_credential-Returns, answered_pair}
use yaima.RateLimit.{Verdict, allowed, limited, bucket_key, check}
use yaima.RateLimit.Bounds.{next_window}
use yaima.RateLimit.Total.{IsHonest, check_total}
use yaima.Tokens.{unix_now}
use yaima.Middleware.{
  Request, HeaderMap, auth_user, require_admin, require_role, extract_client_ip, endpoint_key,
}
use yaima.Middleware.Guards.{require_admin_sound, auth_user_sound, IsCaller}
use yaima.Routes

-- The database with another role for a user.
abbrev pub reassigned : OffsetDateTime → Role → Uuid → Db → Db
reassigned at role id db = record db {
  users = update_where (λ u. u.id == id) (λ u. record u { role = role; updated_at = at }) db.users;
}

module _ {S : Type 0} (env : Env S) (config : Config) where
  -- What a change of role has established and left behind: an admin's token, another user's row,
  -- and a table of users in which only that row's role and time of update differ.
  pub record IsRoleChange (headers : HeaderMap) (target_id : Uuid) (role : Role) (w : World S)
      (after : Db) : Type 0 where
    pub claims : Claims
    pub caller : IsCaller env config headers claims w
    pub caller_is_admin : claims.role ≡ admin
    pub other : claims.sub ≢ target_id
    pub at : OffsetDateTime
    pub changed : after ≡ reassigned at role target_id w.db
    pub exists : (u : User) × (find (λ u. u.id == target_id) after.users ≡ some u)

  update_role-Returns :
      (id : Uuid) (role : Role) (w : World S) (u : User) (w' : World S)
      → Returns (update_role env id role) w u w'
      → (at : OffsetDateTime) × (w'.db ≡ reassigned at role id w.db)
        × (find (λ u. u.id == id) w'.db.users ≡ some u)
  unfolding update_role Db.update_user_role
  update_role-Returns id role w u w' h = after_query w u w' _ env _ _ h λ updated w₁ first h.
      let (is, same) = answered_pair _ _ _ _ first in
      let (found, left) = ok_or-Returns _ _ _ u w' h in
      let stored : w'.db ≡ reassigned (env.now w.tick) role id w.db =
        ap (λ x. x.db) (sym left) ∙ sym same in
      (
        env.now w.tick,
        stored,
        ap (λ (db : Db). find (λ u. u.id == id) db.users) stored ∙ is ∙ found,
      )

  view_of-Returns :
      (u : User) (w : World S) (r : Routes.Response) (w' : World S)
      → Returns (Routes.view_of env config u) w r w'
      → w.db ≡ w'.db
  unfolding Routes.view_of
  view_of-Returns u w r w' h = after w r w' _ _ h λ c w₁ first h.
      let (_, same) = find_local_credential-Returns env config _ w c w₁ first in
      same ∙ ap (λ x. x.db) (pure-Returns _ w₁ r w' h).1

  -- A change of role that succeeds was asked for with a valid token of an admin, for another user,
  -- who exists; and only that user's row changed, by the role asked for and the time of its update.
  pub update_user_role-IsRoleChange :
      (req : Request) (target_id : Uuid) (body : UpdateRoleRequest) (w : World S)
      (r : Routes.Response) (w' : World S)
      → Returns (Routes.handle_update_user_role env config req target_id body) w r w'
      → IsRoleChange req.headers target_id body.role w w'.db
  unfolding Routes.handle_update_user_role Auth.update_user_role
  update_user_role-IsRoleChange req target_id body w r w' h =
      after w r w' _ _ h λ claims w₁ first h. after w₁ r w' _ _ h λ u w₂ second h.
        after_raise_if w₁ u w₂ _ _ _ second λ other second.
          let (authorized, entitled) =
            require_admin_sound env config req.headers w claims w₁ first in
          let (caller, same) = auth_user_sound env config req.headers w claims w₁ authorized in
          let (at, changed, exists) = update_role-Returns target_id body.role w₁ u w₂ second in
          let kept : w₂.db ≡ w'.db = view_of-Returns u w₂ r w' h in
          record {
            claims = claims;
            caller = caller;
            caller_is_admin = (is_at_least-IsHierarchy.top claims.role).0 entitled;
            other = λ e. ground (arith, e);
            at = at;
            changed = sym kept ∙ changed ∙ ap (reassigned at body.role target_id) same;
            exists =
                (u, ap (λ (db : Db). find (λ u. u.id == target_id) db.users) (sym kept) ∙ exists);
          }

  -- A valid token of a caller who is no admin gets `FORBIDDEN` from the endpoint that changes roles,
  -- which does nothing beyond reading the token.
  pub not_admin_forbidden :
      (req : Request) (target_id : Uuid) (body : UpdateRoleRequest) (c : Claims) (w w₀ : World S)
      → Returns (auth_user env config req.headers) w c w₀
      → c.role ≢ admin
      → Routes.handle_update_user_role env config req target_id body w ≡ (err forbidden, w₀)
  unfolding Routes.handle_update_user_role require_admin require_role ◌>>=◌
  not_admin_forbidden req target_id body c w w₀ h other =
      let low : is_at_least c.role admin ≡ false = elim (Bool-cases (is_at_least c.role admin)) [
        | inl top ↦ elim (other ((is_at_least-IsHierarchy.top c.role).0 top)) [ ]
        | inr low ↦ low
      ] in
      simp (h, low)

  -- No caller changes the own role: to a valid token of the target, the endpoint answers `FORBIDDEN`
  -- and does nothing beyond reading the token.
  pub own_role_forbidden :
      (req : Request) (body : UpdateRoleRequest) (c : Claims) (w w₀ : World S)
      → Returns (auth_user env config req.headers) w c w₀
      → Routes.handle_update_user_role env config req c.sub body w ≡ (err forbidden, w₀)
  unfolding Routes.handle_update_user_role Auth.update_user_role require_admin require_role ◌>>=◌
  own_role_forbidden req body c w w₀ h = elim (Bool-cases (is_at_least c.role admin)) [
    | inl top ↦ simp (h, top, beq_refl c.sub)
    | inr low ↦ simp (h, low)
  ]

  -- What a request comes to by its verdict: the handler's run, or `RATE_LIMITED` with the wait.
  abbrev pub HasProceeded :
      Action S AppError Routes.Response
      → World S
      → Verdict
      → Outcome AppError Routes.Response × World S
      → Type 0
  HasProceeded next w (allowed remaining) result = result ≡ next w
  HasProceeded next w (limited retry_after) result = result ≡ (err (rate_limited retry_after), w)

  proceed-HasProceeded :
      (v : Verdict) (next : Action S AppError Routes.Response) (w : World S)
      → HasProceeded next w v (Routes.proceed env config v next w)
  unfolding ◌>>=◌
  proceed-HasProceeded (allowed remaining) next w = refl
  proceed-HasProceeded (limited retry_after) next w = refl

  -- Behind the rate limiter every request gets a verdict, whichever calls of Valkey fail, if the
  -- window is not empty and the start of the next one fits 64 bits: a fair one on the count that
  -- `INCR` gives for the caller's key, or, where a call fails, the whole limit. The handler runs, in
  -- the world that the count left, exactly if the verdict allows it; else the answer is
  -- `RATE_LIMITED` with the verdict's wait and nothing else happens.
  pub rate_limit_middleware-IsHonest :
      (req : Request) (next : Action S AppError Routes.Response) (w : World S)
      → 0 < config.auth_rate_limit_window_secs
      → next_window (Routes.limiter env config) (unix_now env w.tick) < 2 ^ 64
      → let limiter = Routes.limiter env config in
        let ip = extract_client_ip req.headers in
        let endpoint = endpoint_key req in
        let now = unix_now env w.tick in
        let key = bucket_key endpoint ip (now / config.auth_rate_limit_window_secs) in
        (v : Verdict) × (w₀ : World S) × Returns {E = AppError}
          (check env limiter ip endpoint)
          w
          v
          w₀
        × IsHonest env limiter key now (record w { tick = suc w.tick }) v
        × HasProceeded next w₀ v (Routes.rate_limit_middleware env config req next w)
  unfolding Routes.rate_limit_middleware ◌>>=◌
  rate_limit_middleware-IsHonest req next w positive fits =
      let (v, w₀, returns, honest) =
        check_total env (Routes.limiter env config) {E = AppError} (extract_client_ip req.headers)
          (endpoint_key req) w positive fits in
      (v, w₀, returns, honest, rw returns (proceed-HasProceeded v next w₀))
