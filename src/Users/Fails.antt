-- ===== src/Users/Fails.antt =====
-- The errors of the operations of services/user.rs and of the password functions.
use yaima.Base.{String, true, false, ◌&&◌, ◌==◌, string_eq, Option, contains, if◌then◌else◌}
use yaima.Config.{OAuthProvider}
use yaima.Models.{OffsetDateTime, Uuid, Role}
use yaima.Errors.{
  SqlxError, database_error, other_error, AppError, database, hashing, email_taken, username_taken,
  user_not_found, invalid_credentials,
}
use yaima.External.{Env}
use yaima.Program.Fails.{Fails, fails_rules}
use yaima.Users.{
  OAuthProfile, map_constraint_err, hash_password, verify_password, find_by_id, find_by_email,
  find_local_credential, insert_account, create, create_from_oauth, change_password, update_role,
  deactivate, find_by_oauth_identity, link_oauth_account, list_oauth_connections,
  unlink_oauth_account,
}

map_constraint_err-Fails :
    (Q : AppError → Type 0) (e : SqlxError) (constraint : String) (mapped : AppError)
    → ((e : SqlxError) → Q (database e))
    → Q mapped
    → Q (map_constraint_err e constraint mapped)
unfolding map_constraint_err
map_constraint_err-Fails Q (database_error code message) constraint mapped db m =
    elim (code == "23505" && contains message constraint)
      as (λ b. Q (if b then mapped else database (database_error code message))) [
        | true ↦ m
        | false ↦ db (database_error code message)
      ]
map_constraint_err-Fails Q (other_error e) constraint mapped db m = db (other_error e)

module _ {Q : AppError → Type 0} where
  module _ {S : Type 0} (env : Env S) where
    pub hash_password-Fails : (password : String) → Q hashing → Fails Q (hash_password env password)
    unfolding hash_password
    hash_password-Fails password h = search fails_rules

    pub verify_password-Fails :
        (password hash : String) → Q hashing → Fails Q (verify_password env password hash)
    unfolding verify_password
    verify_password-Fails password hash h = search fails_rules

    module _ (db : (e : SqlxError) → Q (database e)) where
      pub find_by_id-Fails : (id : Uuid) → Q user_not_found → Fails Q (find_by_id env id)
      unfolding find_by_id
      find_by_id-Fails id missing = search fails_rules

      pub find_by_email-Fails : (email : String) → Fails Q (find_by_email env email)
      unfolding find_by_email
      find_by_email-Fails email = search fails_rules

      pub find_local_credential-Fails : (id : Uuid) → Fails Q (find_local_credential env id)
      unfolding find_local_credential
      find_local_credential-Fails id = search fails_rules

      insert_account-Fails :
          (started : OffsetDateTime) (id : Uuid) (email name username hash : String)
          → Q email_taken
          → Q username_taken
          → Fails Q (insert_account env started id email name username hash)
      unfolding insert_account
      insert_account-Fails started id email name username hash taken used =
          search (fails_rules, map_constraint_err-Fails Q)

      pub create-Fails :
          (email name username password : String)
          → Q hashing
          → Q email_taken
          → Q username_taken
          → Fails Q (create env email name username password)
      unfolding create
      create-Fails email name username password h taken used =
          search (fails_rules, hash_password-Fails, insert_account-Fails)

      pub create_from_oauth-Fails :
          (email : String) (name : Option String)
          → Q email_taken
          → Fails Q (create_from_oauth env email name)
      unfolding create_from_oauth
      create_from_oauth-Fails email name taken = search (fails_rules, map_constraint_err-Fails Q)

      pub change_password-Fails :
          (id : Uuid) (current new : String)
          → Q user_not_found
          → Q hashing
          → Q invalid_credentials
          → Fails Q (change_password env id current new)
      unfolding change_password
      change_password-Fails id current new missing h wrong =
          search
            (fails_rules, find_local_credential-Fails, verify_password-Fails, hash_password-Fails)
            depth 9

      pub update_role-Fails :
          (id : Uuid) (role : Role) → Q user_not_found → Fails Q (update_role env id role)
      unfolding update_role
      update_role-Fails id role missing = search fails_rules

      pub deactivate-Fails : (id : Uuid) → Fails Q (deactivate env id)
      unfolding deactivate
      deactivate-Fails id = search fails_rules

      pub find_by_oauth_identity-Fails :
          (p : OAuthProvider) (id : String) → Fails Q (find_by_oauth_identity env p id)
      unfolding find_by_oauth_identity
      find_by_oauth_identity-Fails p id = search fails_rules

      pub link_oauth_account-Fails :
          (id : Uuid) (profile : OAuthProfile) → Fails Q (link_oauth_account env id profile)
      unfolding link_oauth_account
      link_oauth_account-Fails id profile = search fails_rules

      pub list_oauth_connections-Fails : (id : Uuid) → Fails Q (list_oauth_connections env id)
      unfolding list_oauth_connections
      list_oauth_connections-Fails id = search fails_rules

      pub unlink_oauth_account-Fails :
          (id : Uuid) (p : OAuthProvider)
          → Q user_not_found
          → Fails Q (unlink_oauth_account env id p)
      unfolding unlink_oauth_account
      unlink_oauth_account-Fails id p missing = search fails_rules

pub ruleset user_fails = (
  hash_password-Fails, verify_password-Fails, find_by_id-Fails, find_by_email-Fails,
  find_local_credential-Fails, create-Fails, create_from_oauth-Fails, change_password-Fails,
  update_role-Fails, deactivate-Fails, find_by_oauth_identity-Fails, link_oauth_account-Fails,
  list_oauth_connections-Fails, unlink_oauth_account-Fails,
)
