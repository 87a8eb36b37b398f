-- ===== src/Users/Conflicts.antt =====
-- services/user.rs `create`: which error a violated constraint becomes.
use yaima.Base.{ℕ, suc, String, ◌≡◌, true, false, none, some, string_eq, nat_eq, has_key}
use yaima.Models.{User}
use yaima.Errors.{database, email_taken}
use yaima.External.{Env}
use yaima.Db.{insert_user, unique_violation}
use yaima.Program.{World, err, ◌>>=◌, map_err, query, transaction}
use yaima.Users.{map_constraint_err, hash_password, insert_account, create}

module _ {S : Type 0} (env : Env S) where
  -- A call of `create` in which nothing fails but constraints: argon2 hashes the password, the
  -- database answers, and the new id is fresh.
  pub record IsSmooth (password : String) (w : World S) : Type 0 where
    pub hash : String
    pub hashed : env.argon2.hash password (env.salt w.tick) ≡ some hash
    pub answers : (n : ℕ) → env.sql_fault n ≡ none
    pub fresh : has_key (λ (u : User). u.id) (env.uuid (suc w.tick)) w.db.users ≡ false

  module _ (email display_name username password : String) (w : World S)
      (smooth : IsSmooth password w) where
    -- An address in use is reported as `EMAIL_TAKEN`, when nothing but constraints fails.
    pub create_email_taken :
        has_key (λ (u : User). u.email) email w.db.users ≡ true
        → (create env email display_name username password w).0 ≡ err email_taken
    unfolding create hash_password insert_account insert_user map_constraint_err ◌>>=◌ map_err query
        transaction
    create_email_taken taken = simp (smooth.hashed, smooth.answers, smooth.fresh, taken)

    -- A display name in use is reported as `DATABASE_ERROR`, when nothing but constraints fails and
    -- the address is free.
    pub create_name_taken :
        has_key (λ (u : User). u.email) email w.db.users ≡ false
        → has_key (λ (u : User). u.display_name) display_name w.db.users ≡ true
        → (create env email display_name username password w).0
          ≡ err (database (unique_violation "users_username_key"))
    unfolding create hash_password insert_account insert_user map_constraint_err ◌>>=◌ map_err query
        transaction
    create_name_taken free taken = simp (smooth.hashed, smooth.answers, smooth.fresh, free, taken)
