-- ===== src/Db.antt =====
-- The database: the tables and constraints of migrations/, and the SQL statements of
-- services/user.rs and services/token.rs as functions on them.
pub mod Statements
pub mod Inserts
pub mod Schema
pub mod Accounts
pub mod Consistent
use Prim.Native.String.{◌++◌}
use yaima.Base.{
  ℕ, String, Bool, true, false, Option, none, some, List, [], ◌∷◌, ◌++◌ as list_append, PartialEq,
  ◌==◌, nat_eq, string_eq, if◌then◌else◌, any, find, select, update_where, has_key, not, ◌&&◌,
  length, leb,
}
use yaima.Models.{Uuid, OffsetDateTime, Role, user, User, LocalCredential, Provider, provider_eq}
use yaima.Errors.{SqlxError, database_error}

-- The columns of `oauth_credentials` that the program writes or reads.
pub record OAuthCredential : Type 0 where
  pub id : Uuid
  pub user_id : Uuid
  pub provider : Provider
  pub provider_user_id : String
  pub avatar_url : Option String
  pub created_at : OffsetDateTime

-- A row of `refresh_tokens`: `RefreshTokenRow` with its `lookup_key`.
pub record RefreshTokenRow : Type 0 where
  pub id : Uuid
  pub user_id : Uuid
  pub token_hash : String
  pub lookup_key : String
  pub expires_at : OffsetDateTime
  pub revoked : Bool

pub record Db : Type 0 where
  pub users : List User
  pub local_credentials : List LocalCredential
  pub oauth_credentials : List OAuthCredential
  pub refresh_tokens : List RefreshTokenRow

-- What a statement does: it answers and leaves a new database, or is refused and changes nothing.
pub data Answer (A : Type 0) : Type 0 where
  answered : A → Db → Answer A
  refused : SqlxError → Answer A

-- PostgreSQL's `unique_violation` and `foreign_key_violation`.
abbrev pub unique_violation : String → SqlxError
unique_violation name =
    database_error "23505" ("duplicate key value violates unique constraint \"" ++ name ++ "\"")

abbrev pub foreign_key_violation : String → SqlxError
foreign_key_violation name =
    database_error "23503" ("insert violates foreign key constraint \"" ++ name ++ "\"")

-- `UserService::find_by_id`
unfoldable pub select_user : Uuid → Db → Answer (Option User)
select_user id db = answered (find (λ u. u.id == id) db.users) db

-- `UserService::find_by_email`
unfoldable pub select_user_by_email : String → Db → Answer (Option User)
select_user_by_email email db = answered (find (λ u. u.email == email) db.users) db

-- `UserService::find_local_credential`
unfoldable pub select_local_credential : Uuid → Db → Answer (Option LocalCredential)
select_local_credential user_id db =
    answered (find (λ c. c.user_id == user_id) db.local_credentials) db

-- The row of a new user: `role` and `is_active` take their defaults.
abbrev pub new_user : OffsetDateTime → Uuid → String → String → User
new_user now id email display_name = record {
  id = id;
  email = email;
  display_name = display_name;
  role = user;
  is_active = true;
  created_at = now;
  updated_at = now;
}

-- `INSERT INTO users (id, email, display_name)`. The second migration renames `username` to
-- `display_name`, so the constraint `users_username_key` of the first is on that column.
unfoldable pub insert_user : OffsetDateTime → Uuid → String → String → Db → Answer User
insert_user now id email display_name db =
    if has_key (λ u. u.id) id db.users
    then refused (unique_violation "users_pkey")
    else if has_key (λ u. u.email) email db.users
    then refused (unique_violation "users_email_key")
    else if has_key (λ u. u.display_name) display_name db.users
    then refused (unique_violation "users_username_key")
    else (let u = new_user now id email display_name in
        answered u (record db { users = list_append db.users (u ∷ []) }))

abbrev pub new_credential : OffsetDateTime → Uuid → String → String → LocalCredential
new_credential now user_id username password_hash = record {
  user_id = user_id;
  username = username;
  password_hash = password_hash;
  created_at = now;
  updated_at = now;
}

-- `INSERT INTO local_credentials (user_id, username, password_hash)`
unfoldable pub insert_local_credential :
    OffsetDateTime → Uuid → String → String → Db → Answer LocalCredential
insert_local_credential now user_id username password_hash db =
    if has_key (λ c. c.user_id) user_id db.local_credentials
    then refused (unique_violation "local_credentials_pkey")
    else if has_key (λ c. c.username) username db.local_credentials
    then refused (unique_violation "local_credentials_username_key")
    else if not (has_key (λ u. u.id) user_id db.users)
    then refused (foreign_key_violation "local_credentials_user_id_fkey")
    else (let c = new_credential now user_id username password_hash in
        answered c (record db { local_credentials = list_append db.local_credentials (c ∷ []) }))

-- `UPDATE local_credentials SET password_hash = $1, updated_at = NOW() WHERE user_id = $2`
unfoldable pub update_password_hash : OffsetDateTime → String → Uuid → Db → Answer Unit
update_password_hash now new_hash user_id db = answered tt (record db {
  local_credentials =
      update_where (λ c. c.user_id == user_id)
        (λ c. record c { password_hash = new_hash; updated_at = now }) db.local_credentials;
})

abbrev with_role : OffsetDateTime → Role → User → User
with_role now role u = record u { role = role; updated_at = now }

-- `UPDATE users SET role = $1, updated_at = NOW() WHERE id = $2 RETURNING …`
unfoldable pub update_user_role : OffsetDateTime → Role → Uuid → Db → Answer (Option User)
update_user_role now role id db =
    let users = update_where (λ u. u.id == id) (with_role now role) db.users in
    answered (find (λ u. u.id == id) users) (record db { users = users })

-- `UPDATE users SET is_active = FALSE, updated_at = NOW() WHERE id = $1`
unfoldable pub deactivate_user : OffsetDateTime → Uuid → Db → Answer Unit
deactivate_user now id db = answered tt (record db {
  users =
      update_where (λ u. u.id == id) (λ u. record u { is_active = false; updated_at = now })
        db.users;
})

abbrev pub is_identity : Provider → String → OAuthCredential → Bool
is_identity provider provider_user_id oc =
    oc.provider == provider && oc.provider_user_id == provider_user_id

abbrev pub joined_user : Db → Option OAuthCredential → Option User
joined_user db none = none
joined_user db (some oc) = find (λ u. u.id == oc.user_id) db.users

-- `SELECT … FROM oauth_credentials oc JOIN users u ON u.id = oc.user_id WHERE …`
unfoldable pub select_user_by_identity : Provider → String → Db → Answer (Option User)
select_user_by_identity provider provider_user_id db =
    answered (joined_user db (find (is_identity provider provider_user_id) db.oauth_credentials)) db

-- `INSERT INTO oauth_credentials … ON CONFLICT (provider, provider_user_id) DO NOTHING`
unfoldable pub insert_oauth_credential : OAuthCredential → Db → Answer Unit
insert_oauth_credential oc db =
    if any (is_identity oc.provider oc.provider_user_id) db.oauth_credentials
    then answered tt db
    else if has_key (λ x. x.id) oc.id db.oauth_credentials
    then refused (unique_violation "oauth_credentials_pkey")
    else if not (has_key (λ u. u.id) oc.user_id db.users)
    then refused (foreign_key_violation "oauth_credentials_user_id_fkey")
    else answered tt (record db { oauth_credentials = list_append db.oauth_credentials (oc ∷ []) })

-- `ORDER BY created_at ASC`; rows of one time stay in the order of the table.
abbrev insert_by_time : OAuthCredential → List OAuthCredential → List OAuthCredential
insert_by_time x [] = x ∷ []
insert_by_time x (y ∷ ys) =
    if leb x.created_at y.created_at then x ∷ y ∷ ys else y ∷ insert_by_time x ys

abbrev order_by_time : List OAuthCredential → List OAuthCredential
order_by_time [] = []
order_by_time (x ∷ xs) = insert_by_time x (order_by_time xs)

-- `SELECT … FROM oauth_credentials WHERE user_id = $1 ORDER BY created_at ASC`
unfoldable pub select_connections : Uuid → Db → Answer (List OAuthCredential)
select_connections user_id db =
    answered (order_by_time (select (λ oc. oc.user_id == user_id) db.oauth_credentials)) db

abbrev pub is_link : Uuid → Provider → OAuthCredential → Bool
is_link user_id provider oc = oc.user_id == user_id && oc.provider == provider

-- `DELETE FROM oauth_credentials WHERE user_id = $1 AND provider = $2`: the rows affected, of
-- which the program asks only whether there are any.
unfoldable pub delete_oauth_credential : Uuid → Provider → Db → Answer ℕ
delete_oauth_credential user_id provider db =
    answered (length (select (is_link user_id provider) db.oauth_credentials)) (record db {
      oauth_credentials = select (λ oc. not (is_link user_id provider oc)) db.oauth_credentials;
    })

-- `INSERT INTO refresh_tokens (id, user_id, token_hash, lookup_key, expires_at)`; `revoked` takes its
-- default.
unfoldable pub insert_refresh_token : RefreshTokenRow → Db → Answer Unit
insert_refresh_token t db =
    if has_key (λ x. x.id) t.id db.refresh_tokens
    then refused (unique_violation "refresh_tokens_pkey")
    else if has_key (λ x. x.token_hash) t.token_hash db.refresh_tokens
    then refused (unique_violation "refresh_tokens_token_hash_key")
    else if has_key (λ x. x.lookup_key) t.lookup_key db.refresh_tokens
    then refused (unique_violation "idx_refresh_tokens_lookup_key")
    else if not (has_key (λ u. u.id) t.user_id db.users)
    then refused (foreign_key_violation "refresh_tokens_user_id_fkey")
    else answered tt (record db {
      refresh_tokens = list_append db.refresh_tokens (record t { revoked = false } ∷ []);
    })

-- `SELECT … FROM refresh_tokens WHERE lookup_key = $1`
unfoldable pub select_refresh_token : String → Db → Answer (Option RefreshTokenRow)
select_refresh_token lookup_key db =
    answered (find (λ t. t.lookup_key == lookup_key) db.refresh_tokens) db

abbrev pub revoke : RefreshTokenRow → RefreshTokenRow
revoke t = record t { revoked = true }

-- `UPDATE refresh_tokens SET revoked = TRUE WHERE id = $1`
unfoldable pub revoke_token : Uuid → Db → Answer Unit
revoke_token id db =
    answered tt
      (record db { refresh_tokens = update_where (λ t. t.id == id) revoke db.refresh_tokens })

-- `UPDATE refresh_tokens SET revoked = TRUE WHERE user_id = $1 AND revoked = FALSE`
unfoldable pub revoke_user_tokens : Uuid → Db → Answer Unit
revoke_user_tokens user_id db = answered tt (record db {
  refresh_tokens =
      update_where (λ t. t.user_id == user_id && not t.revoked) revoke db.refresh_tokens;
})
