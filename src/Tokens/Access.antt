-- ===== src/Tokens/Access.antt =====
-- services/token.rs: the life of an access token.
use yaima.Base.{ℕ, ◌+◌, ◌%◌, ◌^◌, ◌≤◌, String, ◌≡◌, some}
use yaima.Config.{Config}
use yaima.Models.{Uuid, Role, AuthMethod, Claims}
use yaima.External.{Env, Jwt, decoded}
use yaima.Program.{World, ok, ◌>>=◌}
use yaima.Program.Inversion.{Returns, after_sample, ok_or-Returns}
use yaima.Tokens.{unix_now, generate_access_token, validate_access_token}

-- What `jsonwebtoken` promises: a token decodes, with the secret that signed it, to the claims that
-- were encoded, up to the second in `exp`.
pub record IsJwt (jwt : Jwt) : Type 0 where
  pub decode-encode :
      (secret token : String) (claims : Claims) (now : ℕ)
      → jwt.encode secret claims ≡ some token
      → now ≤ claims.exp
      → jwt.decode now secret token ≡ decoded claims

module _ {S : Type 0} (env : Env S) (config : Config) where
  -- The claims of a token that is issued at a second.
  abbrev pub issued : Uuid → String → String → Role → AuthMethod → ℕ → Claims
  issued id email display_name role m now = record {
    sub = id;
    iat = now;
    exp = (now + config.access_token_expiry_secs) % 2 ^ 64;
    email = email;
    display_name = display_name;
    role = role;
    auth_method = m;
  }

  -- What is issued is the encoding of the claims.
  generate_access_token-encodes :
      (id : Uuid) (email display_name : String) (role : Role) (m : AuthMethod) (w : World S)
      (token : String) (w₁ : World S)
      → Returns (generate_access_token env config id email display_name role m) w token w₁
      → env.jwt.encode config.jwt_secret (issued id email display_name role m (unix_now env w.tick))
        ≡ some token
  unfolding generate_access_token
  generate_access_token-encodes id email display_name role m w token w₁ h =
      after_sample w token w₁ _ _ h λ h. (ok_or-Returns _ _ _ token w₁ h).0

  -- An access token that was issued is accepted with its claims, in every world whose clock has not
  -- passed the second of its issue plus the configured lifetime, modulo 2 ^ 64, if `jsonwebtoken`
  -- keeps its promise.
  pub generate-validate :
      (laws : IsJwt env.jwt) (id : Uuid) (email display_name : String) (role : Role)
      (m : AuthMethod) (w : World S) (token : String) (w₁ v : World S)
      → Returns (generate_access_token env config id email display_name role m) w token w₁
      → unix_now env v.tick ≤ (unix_now env w.tick + config.access_token_expiry_secs) % 2 ^ 64
      → (validate_access_token env config token v).0
        ≡ ok (issued id email display_name role m (unix_now env w.tick))
  unfolding validate_access_token ◌>>=◌
  generate-validate laws id email display_name role m w token w₁ v h young =
      let claims = issued id email display_name role m (unix_now env w.tick) in
      let encoded = generate_access_token-encodes id email display_name role m w token w₁ h in
      simp (laws.decode-encode config.jwt_secret token claims (unix_now env v.tick) encoded young)
