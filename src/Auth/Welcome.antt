-- ===== src/Auth/Welcome.antt =====
-- services/auth.rs: who has registered can log in.
use mathlib.Core.Path.{subst}
use yaima.Base.{
  ℕ, suc, String, ◌≡◌, ap, sym, true, none, some, find, ◌==◌, string_eq, nat_eq, IsUnique, ◌++◌, [],
  ◌∷◌,
}
use yaima.Config.{Config}
use yaima.Models.{
  Uuid, User, LocalCredential, Role, AuthMethod, UserView, AuthResponse, user_response,
}
use yaima.External.{Env, Argon2}
use yaima.Db.{Db, answered, select_user_by_email, select_local_credential}
use yaima.Db.Statements.{Leaves, leaves}
use yaima.Db.Schema.{IsConsistent}
use yaima.Db.Consistent.{IsConsistent-statements}
use yaima.Program.{World, ◌>>=◌, map_err, query}
use yaima.Program.Inversion.{Returns, after, after_raise_if, Keeps-Returns}
use yaima.Users.{find_by_email, find_local_credential, verify_password}
use yaima.Users.Keeps.{create-Keeps}
use yaima.Tokens.Registry.Table.{find-append_unique}
use yaima.Auth.{register, login, issue_tokens, issue_for}
use yaima.Auth.Login.{issue_tokens-response}
use yaima.Auth.Issued.{issue_tokens-IsIssued}
use yaima.Auth.Registration.{IsAccount, create-IsAccount}

-- What argon2 documents: a hash that it made is one, and verifies for its password.
pub record IsHasher (argon2 : Argon2) : Type 0 where
  pub hash_law :
      (password salt hash : String)
      → argon2.hash password salt ≡ some hash
      → (argon2.is_hash hash ≡ true) × (argon2.verify password hash ≡ true)

-- The accounts are those of before.
abbrev pub SameAccounts : Db → Db → Type 0
SameAccounts before after =
    (after.users ≡ before.users)
    × (after.local_credentials ≡ before.local_credentials)
    × (after.oauth_credentials ≡ before.oauth_credentials)

pub Leaves-answered :
    {A : Type 0} {P : Db → Type 0} {a : A} {db : Db} → Leaves P (answered a db) → P db
Leaves-answered (leaves p) = p

module _ {S : Type 0} (env : Env S) (config : Config) where
  pub issue_tokens-SameAccounts :
      (id : Uuid) (email name : String) (role : Role) (m : AuthMethod) (view : UserView)
      (w : World S) (r : AuthResponse) (w' : World S)
      → Returns (issue_tokens env config id email name role m view) w r w'
      → SameAccounts w.db w'.db
  issue_tokens-SameAccounts id email name role m view w r w' h =
      let stored = (issue_tokens-IsIssued env config _ _ _ _ _ _ w r w' h).stored in
      (
        ap (λ (db : Db). db.users) stored,
        ap (λ (db : Db). db.local_credentials) stored,
        ap (λ (db : Db). db.oauth_credentials) stored,
      )

  -- A login of a user and a credential that are found and pass comes to issue tokens.
  login_run :
      (email password : String) (u : User) (c : LocalCredential) (w : World S)
      → ((n : ℕ) → env.sql_fault n ≡ none)
      → find (λ u. u.email == email) w.db.users ≡ some u
      → u.is_active ≡ true
      → find (λ c. c.user_id == u.id) w.db.local_credentials ≡ some c
      → env.argon2.is_hash c.password_hash ≡ true
      → env.argon2.verify password c.password_hash ≡ true
      → login env config email password w
        ≡ issue_for env config u AuthMethod.password (some c) (record w { tick = suc (suc w.tick) })
  unfolding login find_by_email find_local_credential select_user_by_email select_local_credential
      verify_password ◌>>=◌ map_err query
  login_run email password u c w clear found active stored parses verifies =
      simp (clear w.tick, clear (suc w.tick), found, active, stored, parses, verifies)

  -- Who has registered is found by the address, and its credential by its user.
  module _ {email name username password : String} {before after : Db} {u : User}
      {c : LocalCredential} (account : IsAccount env email name username password before u c after)
      (consistent : IsConsistent after) where
    user_found : find (λ u. u.email == email) after.users ≡ some u
    user_found =
        let users = ap (λ (db : Db). db.users) account.stored in
        let last =
          find-append_unique {K = String} (λ u. u.email) before.users u
            (subst (IsUnique (λ (u : User). u.email)) users consistent.users_email_key) in
        subst (λ us. find (λ u. u.email == email) us ≡ some u) (sym users)
          (subst (λ e. find (λ x. x.email == e) (before.users ++ u ∷ []) ≡ some u)
            (ap (λ u. u.email) account.user_is) last)

    credential_found : find (λ c. c.user_id == u.id) after.local_credentials ≡ some c
    credential_found =
        let credentials = ap (λ (db : Db). db.local_credentials) account.stored in
        let last =
          find-append_unique {K = ℕ} (λ c. c.user_id) before.local_credentials c
            (subst (IsUnique (λ (c : LocalCredential). c.user_id)) credentials
              consistent.credentials_pkey) in
        subst (λ cs. find (λ c. c.user_id == u.id) cs ≡ some c) (sym credentials)
          (subst (λ i. find (λ x. x.user_id == i) (before.local_credentials ++ c ∷ []) ≡ some c)
            (ap (λ c. c.user_id) account.credential_is) last)

  -- The login that a registration is good for.
  pub record IsWelcome (email password : String) (r : AuthResponse) (w : World S) : Type 0 where
    pub user : User
    pub credential : LocalCredential
    pub shown :
        r.user
        ≡ user_response env.rfc3339 (record { user = user; local_credential = some credential })
    pub enters :
        login env config email password w
        ≡ issue_for env config user AuthMethod.password
            (some credential)
            (record w { tick = suc (suc w.tick) })

  -- After a registration that succeeds, a login with its address and its password, called next, passes
  -- every test and goes on to issue tokens, for the user that the registration showed; if the database
  -- met the constraints of the schema and does not fail, and argon2 verifies the hashes that it makes.
  pub register-IsWelcome :
      IsHasher env.argon2
      → ((n : ℕ) → env.sql_fault n ≡ none)
      → (email username password : String) (w : World S) (r : AuthResponse) (w' : World S)
      → IsConsistent w.db
      → Returns (register env config email username password) w r w'
      → IsWelcome email password r w'
  unfolding register
  register-IsWelcome hasher clear email username password w r w' c h =
      after_raise_if w r w' _ _ _ h λ _ h. after_raise_if w r w' _ _ _ h λ _ h.
        after w r w' _ _ h λ made w₁ first h.
          let account = create-IsAccount env _ _ _ _ w made.0 made.1 w₁ first in
          let consistent =
            Keeps-Returns _ w made w₁ (create-Keeps IsConsistent-statements env _ _ _ _) first c in
          let (users, credentials, _) = issue_tokens-SameAccounts _ _ _ _ _ _ w₁ r w' h in
          let (shown, _) = issue_tokens-response env config _ _ _ _ _ _ w₁ r w' h in
          let (parses, verifies) =
            hasher.hash_law password account.salt account.hash account.hashed in
          let hash = ap (λ c. c.password_hash) account.credential_is in
          record {
            user = made.0;
            credential = made.1;
            shown = shown;
            enters =
                login_run email password made.0 made.1 w' clear
                  (subst (λ us. find (λ u. u.email == email) us ≡ some made.0) (sym users)
                    (user_found account consistent))
                  (ap (λ u. u.is_active) account.user_is)
                  (subst (λ cs. find (λ c. c.user_id == made.0.id) cs ≡ some made.1)
                    (sym credentials) (credential_found account consistent))
                  (subst (λ k. env.argon2.is_hash k ≡ true) (sym hash) parses)
                  (subst (λ k. env.argon2.verify password k ≡ true) (sym hash) verifies);
          }
