-- ===== src/Middleware/Guards.antt =====
-- What the extractors have established when they let a request through.
use mathlib.Core.Path.{subst₂}
use yaima.Base.{
  inl, inr, Bool-cases, none, is_empty, trim, String, ◌≡◌, refl, ap, sym, true, false, Option, some,
  arith,
}
use yaima.Config.{Config}
use yaima.Models.{Role, user, admin, Claims, is_at_least}
use yaima.External.{Env, Decoded, decoded, expired_signature, other_kind}
use yaima.Program.{World, pure, ◌>>=◌, ◌>>◌}
use yaima.Program.Inversion.{
  Returns, after, after_ok_or, after_sample, after_raise_if, pure-Returns, not_raise,
}
use yaima.Tokens.{unix_now, validated, validate_access_token}
use yaima.Middleware.{
  first_address, header, non_empty, or_else, extract_client_ip, HeaderMap, extract_bearer,
  require_role, auth_user, require_user, require_admin,
}

module _ {S : Type 0} (env : Env S) (config : Config) where
  -- The bearer token of the headers decodes to the claims, at the time of the call.
  pub record IsCaller (headers : HeaderMap) (claims : Claims) (w : World S) : Type 0 where
    pub token : String
    pub bearer : extract_bearer headers ≡ some token
    pub valid : env.jwt.decode (unix_now env w.tick) config.jwt_secret token ≡ decoded claims

  validated-Returns :
      (d : Decoded) (w : World S) (c : Claims) (w' : World S)
      → Returns (validated env d) w c w'
      → (d ≡ decoded c) × (w ≡ w')
  validated-Returns (decoded x) w c w' h = let (e, s) = pure-Returns x w c w' h in (ap decoded e, s)
  validated-Returns expired_signature w c w' h = not_raise w c w' _ h
  validated-Returns other_kind w c w' h = not_raise w c w' _ h

  pub auth_user_sound :
      (headers : HeaderMap) (w : World S) (c : Claims) (w' : World S)
      → Returns (auth_user env config headers) w c w'
      → IsCaller headers c w × (w'.db ≡ w.db)
  unfolding auth_user validate_access_token
  auth_user_sound headers w c w' h =
      after_ok_or w c w' (extract_bearer headers) _ _ h λ token bearer h.
        after_sample w c w' _ _ h λ h.
          let (valid, same) = validated-Returns _ _ c w' h in
          (record { token = token; bearer = bearer; valid = valid }, ap (λ x. x.db) (sym same))

  guarded :
      (minimum : Role) (headers : HeaderMap) (w : World S) (c : Claims) (w' : World S)
      → Returns
          (auth_user env config headers >>= λ c. require_role env config c minimum >> pure c)
          w
          c
          w'
      → Returns (auth_user env config headers) w c w' × (is_at_least c.role minimum ≡ true)
  unfolding require_role
  guarded minimum headers w c w' h = after w c w' _ _ h λ d w₁ first h.
      after_raise_if w₁ c w' _ _ _ h λ entitled h.
        let (e, s) = pure-Returns d w₁ c w' h in
        (subst₂ (λ c w'. Returns (auth_user env config headers) w c w') e s first, ground arith)

  -- `RequireUser` lets a request through only if its token is valid and holds at least `user`.
  pub require_user_sound :
      (headers : HeaderMap) (w : World S) (c : Claims) (w' : World S)
      → Returns (require_user env config headers) w c w'
      → Returns (auth_user env config headers) w c w' × (is_at_least c.role user ≡ true)
  unfolding require_user
  require_user_sound = guarded user

  pub require_admin_sound :
      (headers : HeaderMap) (w : World S) (c : Claims) (w' : World S)
      → Returns (require_admin env config headers) w c w'
      → Returns (auth_user env config headers) w c w' × (is_at_least c.role admin ≡ true)
  unfolding require_admin
  require_admin_sound = guarded admin

or_else-filled :
    (o : Option String) (d : String)
    → is_empty d ≡ false
    → is_empty (or_else (non_empty o) d) ≡ false
or_else-filled none d h = h
or_else-filled (some t) d h = elim (Bool-cases (is_empty (trim t))) [
  | inl blank ↦ simp (blank, h)
  | inr full ↦ simp full
]

-- The address that the rate limiter counts by is never empty.
extract_client_ip_filled : (headers : HeaderMap) → is_empty (extract_client_ip headers) ≡ false
unfolding extract_client_ip
extract_client_ip_filled headers =
    or_else-filled (first_address (header "x-forwarded-for" headers))
      (or_else (non_empty (header "x-real-ip" headers)) "unknown")
      (or_else-filled (header "x-real-ip" headers) "unknown" refl)
