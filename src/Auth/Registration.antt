-- ===== src/Auth/Registration.antt =====
-- services/user.rs `create` and services/auth.rs `register`: who gets an account.
use Prim.Native.String.{len}
use mathlib.Core.Path.{subst}
use yaima.Base.{
  suc, none, String, ◌≡◌, refl, ◌⊎◌, inl, inr, ap, sym, ◌∙◌, false, Option, some, ◌≤◌, arith,
  string_eq, nat_eq, has_key, [], ◌∷◌, ◌++◌, first_field,
}
use yaima.Config.{Config}
use yaima.Models.{Uuid, OffsetDateTime, User, LocalCredential, AuthResponse, user_response}
use yaima.Errors.{SqlxError, AppError, hashing, database}
use yaima.External.{Env}
use yaima.Db.{Db, new_user, new_credential}
use yaima.Db.Inserts.{insert_user-IsNewUser, insert_local_credential-IsNewCredential}
use yaima.Program.{World, Action, err, ok_or, sample, ◌>>=◌, transaction}
use yaima.Program.Inversion.{
  Returns, after, after_sample, after_raise_if, after_query, pure-Returns, ok_or-Returns,
}
use yaima.Program.Transaction.{transaction-IsCommitted, transaction-IsAtomic}
use yaima.Users.{hash_password, insert_account, create}
use yaima.Auth.{register}
use yaima.Auth.Login.{issue_tokens-response}
use yaima.Auth.Issued.{IsIssued, issue_tokens-IsIssued}

module _ {S : Type 0} (env : Env S) where
  -- An account that was made: a user and its credential, of one time, at the ends of their tables.
  pub record IsAccount (email name username password : String) (before : Db) (u : User)
      (c : LocalCredential) (after : Db) : Type 0 where
    pub at : OffsetDateTime
    pub salt : String
    pub hash : String
    pub hashed : env.argon2.hash password salt ≡ some hash
    pub user_is : u ≡ new_user at u.id email name
    pub credential_is : c ≡ new_credential at u.id username hash
    pub email_free : has_key (λ u. u.email) email before.users ≡ false
    pub username_free : has_key (λ c. c.username) username before.local_credentials ≡ false
    pub stored : after ≡ record before {
      users = before.users ++ u ∷ [];
      local_credentials = before.local_credentials ++ c ∷ [];
    }

  hash_password-Returns :
      (password : String) (w : World S) (hash : String) (w' : World S)
      → Returns (hash_password env password) w hash w'
      → (env.argon2.hash password (env.salt w.tick) ≡ some hash) × (w'.db ≡ w.db)
  unfolding hash_password
  hash_password-Returns password w hash w' h =
      after_sample w hash w' _ _ h
        λ h. let (is, same) = ok_or-Returns _ _ _ hash w' h in (is, ap (λ x. x.db) (sym same))

  insert_account-IsAccount :
      (started : OffsetDateTime) (id : Uuid) (email name username password hash salt : String)
      (w : World S) (u : User) (c : LocalCredential) (w' : World S)
      → env.argon2.hash password salt ≡ some hash
      → Returns (insert_account env started id email name username hash) w (u, c) w'
      → IsAccount email name username password w.db u c w'.db
  unfolding insert_account
  insert_account-IsAccount started id email name username password hash salt w u c w' hashed h =
      after_query w (u, c) w' _ env _ _ h
        λ u₁ w₁ first h.
          after_query w₁ (u, c) w' _ env _ _ h
            λ c₁ w₂ second h.
              let (is, same) = pure-Returns _ w₂ (u, c) w' h in
              let new = insert_user-IsNewUser _ id email name w.db u₁ w₁.db first in
              let new_c =
                insert_local_credential-IsNewCredential _ id username hash w₁.db c₁ w₂.db second in
              let id_is : u₁.id ≡ id = ap (λ u. u.id) new.is in
              let made : IsAccount email name username password w.db u₁ c₁ w₂.db = record {
                at = started;
                salt = salt;
                hash = hash;
                hashed = hashed;
                user_is = new.is ∙ ap (λ i. new_user started i email name) (sym id_is);
                credential_is =
                    new_c.is ∙ ap (λ i. new_credential started i username hash) (sym id_is);
                email_free = new.email_free;
                username_free =
                    ap (λ (db : Db). has_key (λ c. c.username) username db.local_credentials)
                      (sym new.stored)
                    ∙ new_c.username_free;
                stored =
                    new_c.stored
                    ∙ ap
                        (λ (db : Db). record db {
                          local_credentials = db.local_credentials ++ c₁ ∷ [];
                        })
                        new.stored;
              } in
              subst
                (λ (x : (User × LocalCredential) × World S).
                  IsAccount email name username password w.db x.0.0 x.0.1 x.1.db)
                (ap (λ r. (r, w₂)) is ∙ ap (λ x. ((u, c), x)) same) made

  -- An account that `create` returns was made: its address and its username were free, the password
  -- is stored as a hash of it, and its user and its credential are at the ends of their tables,
  -- which are otherwise unchanged.
  pub create-IsAccount :
      (email name username password : String) (w : World S) (u : User) (c : LocalCredential)
      (w' : World S)
      → Returns (create env email name username password) w (u, c) w'
      → IsAccount email name username password w.db u c w'.db
  unfolding create
  create-IsAccount email name username password w u c w' h =
      after w (u, c) w' _ _ h
        λ hash w₁ first h.
          after_sample w₁ (u, c) w' _ _ h
            λ h.
              let (hashed, same) = hash_password-Returns password w hash w₁ first in
              let done = transaction-IsCommitted env _ _ w' (u, c) h in
              let account =
                insert_account-IsAccount _ _ email name username password hash _ done.entered u c
                  done.left hashed done.ran in
              subst (λ db. IsAccount email name username password db u c w'.db) (done.from ∙ same)
                (subst (λ db. IsAccount email name username password done.entered.db u c db)
                  (sym done.to) account)

  -- What a `create` that failed has left: the database as it was, or the whole account, where the
  -- answer to the `COMMIT` was an error and the commit took effect all the same.
  abbrev pub IsAllOrNothing : (email name username password : String) → Db → AppError → Db → Type 0
  IsAllOrNothing email name username password before e after =
      (after ≡ before)
      ⊎ ((u : User) × (c : LocalCredential) × IsAccount email name username password before u c
            after
          × (x : SqlxError) × (e ≡ database x))

  -- A `create` that fails leaves the database as it was, or has made the whole account and reports an
  -- error of the database: never a user without a credential.
  pub create_atomic :
      (email name username password : String) (w : World S) (e : AppError) (w' : World S)
      → create env email name username password w ≡ (err e, w')
      → IsAllOrNothing email name username password w.db e w'.db
  unfolding create hash_password ◌>>=◌
  create_atomic email name username password w e w' h =
      hashed (env.argon2.hash password (env.salt w.tick)) refl h
    where
      begun : World S
      begun = record w { tick = suc (suc w.tick) }

      inserts : String → OffsetDateTime → Action S AppError (User × LocalCredential)
      inserts hash started =
          insert_account env started (env.uuid (suc w.tick)) email name username hash

      hashed :
          (o : Option String)
          → env.argon2.hash password (env.salt w.tick) ≡ o
          → (do
            hash ← ok_or o hashing
            id ← sample env.uuid
            transaction env λ started. insert_account env started id email name username hash)
              (record w { tick = suc w.tick })
            ≡ (err e, w')
          → IsAllOrNothing email name username password w.db e w'.db
      hashed none is h = inl cc
      hashed (some hash) is h = elim (transaction-IsAtomic env (inserts hash) begun w' e h) [
        | inl same ↦ inl same
        | inr ((u, c), done, x, lost) ↦ inr (
          u,
          c,
          subst (λ db. IsAccount email name username password db u c w'.db) done.from
              (subst (λ db. IsAccount email name username password done.entered.db u c db)
                (sym done.to)
                (insert_account-IsAccount _ _ email name username password hash _ done.entered u c
                  done.left is done.ran)),
          x,
          lost,
        )
      ]

  module _ (config : Config) where
    -- What a registration has established.
    pub record IsRegistered (email username password : String) (before : Db) (r : AuthResponse)
        (after : Db) : Type 0 where
      pub user : User
      pub credential : LocalCredential
      pub after_create : Db
      pub long_enough : 8 ≤ len password
      pub username_fits : (3 ≤ len username) × (len username ≤ 32)
      pub account :
          IsAccount email
            (first_field b'@' email)
            username
            password
            before
            user
            credential
            after_create
      pub shown :
          r.user
          ≡ user_response env.rfc3339 (record { user = user; local_credential = some credential })
      pub issued : IsIssued env config user.id r after_create after

    -- A registration that succeeds had a password of at least 8 bytes and a username of 3 to 32
    -- bytes; it made an account with the part of the address before `@` as display name, as
    -- `create` does, its response shows that account, and beyond the account it has stored only the
    -- row of the response's refresh token, live and of that user.
    pub register-IsRegistered :
        (email username password : String) (w : World S) (r : AuthResponse) (w' : World S)
        → Returns (register env config email username password) w r w'
        → IsRegistered email username password w.db r w'.db
    unfolding register
    register-IsRegistered email username password w r w' h = after_raise_if w r w' _ _ _ h λ long h.
        after_raise_if w r w' _ _ _ h λ fits h. after w r w' _ _ h λ account w₁ first h.
          let (shown, _) = issue_tokens-response env config _ _ _ _ _ _ w₁ r w' h in
          record {
            user = account.0;
            credential = account.1;
            after_create = w₁.db;
            long_enough = ground arith;
            username_fits = ground arith;
            account =
                create-IsAccount email (first_field b'@' email) username password w account.0
                  account.1 w₁ first;
            shown = shown;
            issued = issue_tokens-IsIssued env config _ _ _ _ _ _ w₁ r w' h;
          }
