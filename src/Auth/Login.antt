-- ===== src/Auth/Login.antt =====
-- services/auth.rs `login` and `register`: who gets a session.
use yaima.Base.{
  String, ◌≡◌, ap, sym, ◌∙◌, Bool, true, Option, some, arith, ◌==◌, string_eq, nat_eq, find,
}
use yaima.Config.{Config}
use yaima.Models.{
  Uuid, User, LocalCredential, AuthMethod, Role, AuthResponse, UserView, user_response,
}
use yaima.Errors.{database}
use yaima.External.{Env}
use yaima.Db.{Db, answered, select_user_by_email, select_local_credential}
use yaima.Program.{World}
use yaima.Program.Inversion.{
  Returns, after, after_ok_or, after_raise_if, pure-Returns, query-Returns, map_err-Returns,
}
use yaima.Users.{verify_password, find_by_email, find_local_credential}
use yaima.Auth.{issue_tokens, login}

pub answered_pair :
    {A : Type 0} (a b : A) (db db' : Db) → answered a db ≡ answered b db' → (a ≡ b) × (db ≡ db')
answered_pair a b db db' h = (cc, cc)

module _ {S : Type 0} (env : Env S) (config : Config) where
  -- What a session shows of its user, and how long its access token lives.
  pub issue_tokens-response :
      (id : Uuid) (email display_name : String) (role : Role) (m : AuthMethod) (view : UserView)
      (w : World S) (r : AuthResponse) (w' : World S)
      → Returns (issue_tokens env config id email display_name role m view) w r w'
      → (r.user ≡ user_response env.rfc3339 view) × (r.expires_in ≡ config.access_token_expiry_secs)
  unfolding issue_tokens
  issue_tokens-response id email display_name role m view w r w' h =
      after w r w' _ _ h λ access_token w₁ first h. after w₁ r w' _ _ h λ refresh_token w₂ second h.
        let (is, same) = pure-Returns _ w₂ r w' h in
        (sym (ap (λ x. x.user) is), sym (ap (λ x. x.expires_in) is))

  -- What a login has established: the user with the address is active and has a credential that the
  -- password verifies, and the response is the view of that user.
  pub record IsLogin (email password : String) (db : Db) (r : AuthResponse) : Type 0 where
    pub user : User
    pub credential : LocalCredential
    pub found : find (λ u. u.email == email) db.users ≡ some user
    pub active : user.is_active ≡ true
    pub has_credential : find (λ c. c.user_id == user.id) db.local_credentials ≡ some credential
    pub parsed : env.argon2.is_hash credential.password_hash ≡ true
    pub verified : env.argon2.verify password credential.password_hash ≡ true
    pub shown :
        r.user
        ≡ user_response env.rfc3339 (record { user = user; local_credential = some credential })
    pub lifetime : r.expires_in ≡ config.access_token_expiry_secs

  verify_password-Returns :
      (password hash : String) (w : World S) (b : Bool) (w' : World S)
      → Returns (verify_password env password hash) w b w'
      → (env.argon2.is_hash hash ≡ true) × (env.argon2.verify password hash ≡ b) × (w ≡ w')
  unfolding verify_password
  verify_password-Returns password hash w b w' h =
      after_raise_if w b w' _ _ _ h
        λ parsed h. let (is, same) = pure-Returns _ w b w' h in (ground arith, is, same)

  pub find_by_email-Returns :
      (email : String) (w : World S) (o : Option User) (w' : World S)
      → Returns (find_by_email env email) w o w'
      → (find (λ u. u.email == email) w.db.users ≡ o) × (w.db ≡ w'.db)
  unfolding find_by_email select_user_by_email
  find_by_email-Returns email w o w' h =
      answered_pair _ o w.db w'.db
        (query-Returns env _ w o w' (map_err-Returns database _ w o w' h))

  pub find_local_credential-Returns :
      (id : Uuid) (w : World S) (o : Option LocalCredential) (w' : World S)
      → Returns (find_local_credential env id) w o w'
      → (find (λ c. c.user_id == id) w.db.local_credentials ≡ o) × (w.db ≡ w'.db)
  unfolding find_local_credential select_local_credential
  find_local_credential-Returns id w o w' h =
      answered_pair _ o w.db w'.db
        (query-Returns env _ w o w' (map_err-Returns database _ w o w' h))

  -- A login that succeeds was of a user who is stored with the address, is active and has a stored
  -- credential, whose hash argon2 accepts and verifies for the password; the response shows that
  -- user, and its lifetime is the configured one.
  pub login-IsLogin :
      (email password : String) (w : World S) (r : AuthResponse) (w' : World S)
      → Returns (login env config email password) w r w'
      → IsLogin email password w.db r
  unfolding login
  login-IsLogin email password w r w' h = after w r w' _ _ h λ found w₁ first h.
      after_ok_or w₁ r w' _ _ _ h λ user is_user h. after_raise_if w₁ r w' _ _ _ h λ active h.
        after w₁ r w' _ _ h λ stored w₂ second h.
          after_ok_or w₂ r w' _ _ _ h λ credential is_credential h.
            after w₂ r w' _ _ h λ matches w₃ third h. after_raise_if w₃ r w' _ _ _ h λ matching h.
              let (by_email, same) = find_by_email-Returns email w found w₁ first in
              let (by_user, _) = find_local_credential-Returns user.id w₁ stored w₂ second in
              let (parsed, verified, _) = verify_password-Returns password _ w₂ matches w₃ third in
              let (shown, lifetime) = issue_tokens-response _ _ _ _ _ _ w₃ r w' h in
              record {
                user = user;
                credential = credential;
                found = by_email ∙ is_user;
                active = ground arith;
                has_credential =
                    ap (λ (db : Db). find (λ c. c.user_id == user.id) db.local_credentials) same
                    ∙ by_user
                    ∙ is_credential;
                parsed = parsed;
                verified = ground (arith, verified);
                shown = shown;
                lifetime = lifetime;
              }
