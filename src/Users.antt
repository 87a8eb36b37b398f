-- ===== src/Users.antt =====
-- services/user.rs: `UserService`, and the password functions of services/token.rs that it calls.
pub mod Keeps
pub mod Conflicts
pub mod Unlinking
pub mod Fails
use yaima.Base.{
  ℕ, String, Bool, true, false, not, ◌&&◌, Option, none, some, List, map, if◌then◌else◌, ◌==◌,
  string_eq, nat_eq, contains, first_field,
}
use yaima.Config.{OAuthProvider}
use yaima.Models.{
  Uuid, OffsetDateTime, Role, User, LocalCredential, OAuthConnection, formatted, provider_from,
}
use yaima.Errors.{
  SqlxError, database_error, other_error, AppError, database, hashing, email_taken, username_taken,
  user_not_found, invalid_credentials,
}
use yaima.External.{Env, Argon2}
use yaima.Db.{
  OAuthCredential, select_user, select_user_by_email, select_local_credential, insert_user,
  insert_local_credential, update_password_hash, deactivate_user, select_user_by_identity,
  insert_oauth_credential, select_connections, delete_oauth_credential,
}
use yaima.Db
use yaima.Program.{
  Action, pure, raise, ok_or, sample, raise_if, ◌>>=◌, ◌>>◌, map_err, query, transaction,
}

-- `OAuthProfile` of services/oauth.rs
pub record OAuthProfile : Type 0 where
  pub provider : OAuthProvider
  pub provider_user_id : String
  pub email : String
  pub display_name : Option String
  pub avatar_url : Option String

-- `map_constraint_err`
unfoldable pub map_constraint_err : SqlxError → String → AppError → AppError
map_constraint_err (database_error code message) constraint mapped =
    if code == "23505" && contains message constraint
    then mapped
    else database (database_error code message)
map_constraint_err (other_error e) constraint mapped = database (other_error e)

-- `display_name.unwrap_or_else(|| email.split('@').next().unwrap_or("user"))`; `split` gives at
-- least one piece.
abbrev pub name_or_local_part : Option String → String → String
name_or_local_part (some name) email = name
name_or_local_part none email = first_field b'@' email

module _ {S : Type 0} (env : Env S) where
  unfoldable pub hash_password : String → Action S AppError String
  hash_password password = do salt ← sample env.salt; ok_or (env.argon2.hash password salt) hashing

  unfoldable pub verify_password : String → String → Action S AppError Bool
  verify_password password hash = do
    raise_if (not (env.argon2.is_hash hash)) hashing
    pure (env.argon2.verify password hash)

  unfoldable pub find_by_id : Uuid → Action S AppError User
  find_by_id id = do
    found ← map_err database (query env λ now. select_user id)
    ok_or found user_not_found

  unfoldable pub find_by_email : String → Action S AppError (Option User)
  find_by_email email = map_err database (query env λ now. select_user_by_email email)

  unfoldable pub find_local_credential : Uuid → Action S AppError (Option LocalCredential)
  find_local_credential user_id =
      map_err database (query env λ now. select_local_credential user_id)

  -- The two inserts of `create`, at the time that `NOW()` has in their transaction.
  unfoldable pub insert_account :
      OffsetDateTime
      → Uuid
      → String
      → String
      → String
      → String
      → Action S AppError (User × LocalCredential)
  insert_account started user_id email display_name username password_hash = do
    user ←
        map_err (λ e. map_constraint_err e "users_email_key" email_taken)
          (query env λ now. insert_user started user_id email display_name)
    credential ←
        map_err (λ e. map_constraint_err e "local_credentials_username_key" username_taken)
          (query env λ now. insert_local_credential started user_id username password_hash)
    pure (user, credential)

  unfoldable pub create :
      String → String → String → String → Action S AppError (User × LocalCredential)
  create email display_name username password = do
    password_hash ← hash_password password
    user_id ← sample env.uuid
    transaction env
        λ started. insert_account started user_id email display_name username password_hash

  unfoldable pub create_from_oauth : String → Option String → Action S AppError User
  create_from_oauth email display_name = do
    id ← sample env.uuid
    map_err (λ e. map_constraint_err e "users_email_key" email_taken)
        (query env λ now. insert_user now id email (name_or_local_part display_name email))

  unfoldable pub change_password : Uuid → String → String → Action S AppError Unit
  change_password user_id current_password new_password = do
    found ← find_local_credential user_id
    credential ← ok_or found user_not_found
    matches ← verify_password current_password credential.password_hash
    raise_if (not matches) invalid_credentials
    new_hash ← hash_password new_password
    map_err database (query env λ now. update_password_hash now new_hash user_id)

  unfoldable pub update_role : Uuid → Role → Action S AppError User
  update_role user_id role = do
    updated ← map_err database (query env λ now. Db.update_user_role now role user_id)
    ok_or updated user_not_found

  unfoldable pub deactivate : Uuid → Action S AppError Unit
  deactivate user_id = map_err database (query env λ now. deactivate_user now user_id)

  unfoldable pub find_by_oauth_identity : OAuthProvider → String → Action S AppError (Option User)
  find_by_oauth_identity provider provider_user_id =
      map_err database
        (query env λ now. select_user_by_identity (provider_from provider) provider_user_id)

  unfoldable pub link_oauth_account : Uuid → OAuthProfile → Action S AppError Unit
  link_oauth_account user_id profile = do
    id ← sample env.uuid
    map_err database (
        query env λ now. insert_oauth_credential (record {
          id = id;
          user_id = user_id;
          provider = provider_from profile.provider;
          provider_user_id = profile.provider_user_id;
          avatar_url = profile.avatar_url;
          created_at = now;
        }))

  abbrev pub connection : OAuthCredential → OAuthConnection
  connection r = record {
    provider = r.provider;
    provider_user_id = r.provider_user_id;
    created_at = formatted (env.rfc3339 r.created_at);
  }

  unfoldable pub list_oauth_connections : Uuid → Action S AppError (List OAuthConnection)
  list_oauth_connections user_id = do
    rows ← map_err database (query env λ now. select_connections user_id)
    pure (map connection rows)

  unfoldable pub unlink_oauth_account : Uuid → OAuthProvider → Action S AppError Unit
  unlink_oauth_account user_id provider = do
    rows_affected ←
        map_err database (query env λ now. delete_oauth_credential user_id (provider_from provider))
    raise_if (rows_affected == 0) user_not_found
