-- ===== src/Users/Keeps.antt =====
-- The operations of services/user.rs keep what the statements keep.
use yaima.Base.{String, Option}
use yaima.Config.{OAuthProvider}
use yaima.Models.{OffsetDateTime, Uuid, Role}
use yaima.External.{Env}
use yaima.Db.Statements.{Statements, statement_rules}
use yaima.Db.{Db}
use yaima.Program.Keeps.{Keeps, keeps_rules}
use yaima.Users.{
  OAuthProfile, hash_password, verify_password, find_by_id, find_by_email, find_local_credential,
  insert_account, create, create_from_oauth, change_password, update_role, deactivate,
  find_by_oauth_identity, link_oauth_account, list_oauth_connections, unlink_oauth_account,
}

module _ {P : Db → Type 0} (kept : Statements P) {S : Type 0} (env : Env S) where
  pub hash_password-Keeps : (p : String) → Keeps P (hash_password env p)
  unfolding hash_password
  hash_password-Keeps p = search (keeps_rules, statement_rules)

  pub verify_password-Keeps : (p h : String) → Keeps P (verify_password env p h)
  unfolding verify_password
  verify_password-Keeps p h = search (keeps_rules, statement_rules)

  pub find_by_id-Keeps : (id : Uuid) → Keeps P (find_by_id env id)
  unfolding find_by_id
  find_by_id-Keeps id = search (keeps_rules, statement_rules)

  pub find_by_email-Keeps : (email : String) → Keeps P (find_by_email env email)
  unfolding find_by_email
  find_by_email-Keeps email = search (keeps_rules, statement_rules)

  pub find_local_credential-Keeps : (id : Uuid) → Keeps P (find_local_credential env id)
  unfolding find_local_credential
  find_local_credential-Keeps id = search (keeps_rules, statement_rules)

  insert_account-Keeps :
      (started : OffsetDateTime) (id : Uuid) (email display_name username hash : String)
      → Keeps P (insert_account env started id email display_name username hash)
  unfolding insert_account
  insert_account-Keeps started id email display_name username hash =
      search (keeps_rules, statement_rules)

  pub create-Keeps :
      (email display_name username password : String)
      → Keeps P (create env email display_name username password)
  unfolding create
  create-Keeps email display_name username password =
      search (keeps_rules, hash_password-Keeps, insert_account-Keeps)

  pub create_from_oauth-Keeps :
      (email : String) (name : Option String) → Keeps P (create_from_oauth env email name)
  unfolding create_from_oauth
  create_from_oauth-Keeps email name = search (keeps_rules, statement_rules)

  pub change_password-Keeps : (id : Uuid) (p q : String) → Keeps P (change_password env id p q)
  unfolding change_password
  change_password-Keeps id p q =
      search
        (
          keeps_rules, statement_rules, find_local_credential-Keeps, verify_password-Keeps,
          hash_password-Keeps,
        )
        depth 9

  pub update_role-Keeps : (id : Uuid) (role : Role) → Keeps P (update_role env id role)
  unfolding update_role
  update_role-Keeps id role = search (keeps_rules, statement_rules)

  pub deactivate-Keeps : (id : Uuid) → Keeps P (deactivate env id)
  unfolding deactivate
  deactivate-Keeps id = search (keeps_rules, statement_rules)

  pub find_by_oauth_identity-Keeps :
      (p : OAuthProvider) (id : String) → Keeps P (find_by_oauth_identity env p id)
  unfolding find_by_oauth_identity
  find_by_oauth_identity-Keeps p id = search (keeps_rules, statement_rules)

  pub link_oauth_account-Keeps :
      (id : Uuid) (profile : OAuthProfile) → Keeps P (link_oauth_account env id profile)
  unfolding link_oauth_account
  link_oauth_account-Keeps id profile = search (keeps_rules, statement_rules)

  pub list_oauth_connections-Keeps : (id : Uuid) → Keeps P (list_oauth_connections env id)
  unfolding list_oauth_connections
  list_oauth_connections-Keeps id = search (keeps_rules, statement_rules)

  pub unlink_oauth_account-Keeps :
      (id : Uuid) (p : OAuthProvider) → Keeps P (unlink_oauth_account env id p)
  unfolding unlink_oauth_account
  unlink_oauth_account-Keeps id p = search (keeps_rules, statement_rules)

pub ruleset user_rules = (
  find_by_id-Keeps, find_by_email-Keeps, find_local_credential-Keeps, verify_password-Keeps,
  create-Keeps, create_from_oauth-Keeps, change_password-Keeps, update_role-Keeps, deactivate-Keeps,
  find_by_oauth_identity-Keeps, link_oauth_account-Keeps, list_oauth_connections-Keeps,
  unlink_oauth_account-Keeps,
)
