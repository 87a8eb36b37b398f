-- ===== src/Db/Statements.antt =====
-- What it takes to keep a predicate of the database: an interface with one law for each statement
-- of the program. The services prove, from any value of it, that their operations keep the
-- predicate.
use yaima.Base.{String, Bool, true, false, ◌≡◌, refl, if◌then◌else◌}
use yaima.Errors.{SqlxError}
use yaima.Models.{Uuid, OffsetDateTime, Role, Provider}
use yaima.Db.{
  Db, Answer, answered, refused, OAuthCredential, RefreshTokenRow, select_user,
  select_user_by_email, select_local_credential, select_user_by_identity, select_connections,
  select_refresh_token, insert_user, insert_local_credential, update_password_hash,
  update_user_role, deactivate_user, insert_oauth_credential, delete_oauth_credential,
  insert_refresh_token, revoke_token, revoke_user_tokens,
}

-- `P` holds of the database that a statement leaves, if it answers.
pub data Leaves {A : Type 0} (P : Db → Type 0) : Answer A → Type 0 where
  stays : {e : SqlxError} → Leaves P (refused e)
  leaves : {a : A} {db : Db} → P db → Leaves P (answered a db)

-- A test that refuses the statement, or lets it go on.
pub Leaves-if :
    {A : Type 0} {P : Db → Type 0} (b : Bool) (e : SqlxError) (m : Answer A)
    → (b ≡ false → Leaves P m)
    → Leaves P (if b then refused e else m)
Leaves-if true e m k = stays
Leaves-if false e m k = k refl

-- A test that ends the statement with nothing done, or lets it go on.
pub Leaves-if_done :
    {A : Type 0} {P : Db → Type 0} (b : Bool) (a : A) (db : Db) (m : Answer A)
    → P db
    → (b ≡ false → Leaves P m)
    → Leaves P (if b then answered a db else m)
Leaves-if_done true a db m h k = leaves h
Leaves-if_done false a db m h k = k refl

-- The statements that write.
pub record Statements (P : Db → Type 0) : Type 0 where
  pub insert_user_law :
      (now : OffsetDateTime) (id : Uuid) (email name : String) (db : Db)
      → P db
      → Leaves P (insert_user now id email name db)
  pub insert_local_credential_law :
      (now : OffsetDateTime) (id : Uuid) (username hash : String) (db : Db)
      → P db
      → Leaves P (insert_local_credential now id username hash db)
  pub update_password_hash_law :
      (now : OffsetDateTime) (hash : String) (id : Uuid) (db : Db)
      → P db
      → Leaves P (update_password_hash now hash id db)
  pub update_user_role_law :
      (now : OffsetDateTime) (role : Role) (id : Uuid) (db : Db)
      → P db
      → Leaves P (update_user_role now role id db)
  pub deactivate_user_law :
      (now : OffsetDateTime) (id : Uuid) (db : Db) → P db → Leaves P (deactivate_user now id db)
  pub insert_oauth_credential_law :
      (oc : OAuthCredential) (db : Db) → P db → Leaves P (insert_oauth_credential oc db)
  pub delete_oauth_credential_law :
      (id : Uuid) (p : Provider) (db : Db) → P db → Leaves P (delete_oauth_credential id p db)
  pub insert_refresh_token_law :
      (t : RefreshTokenRow) (db : Db) → P db → Leaves P (insert_refresh_token t db)
  pub revoke_token_law : (id : Uuid) (db : Db) → P db → Leaves P (revoke_token id db)
  pub revoke_user_tokens_law : (id : Uuid) (db : Db) → P db → Leaves P (revoke_user_tokens id db)

module _ {P : Db → Type 0} (kept : Statements P) (db : Db) (h : P db) where
  pub insert_user-Leaves :
      (now : OffsetDateTime) (id : Uuid) (email name : String)
      → Leaves P (insert_user now id email name db)
  insert_user-Leaves now id email name = kept.insert_user_law now id email name db h

  pub insert_local_credential-Leaves :
      (now : OffsetDateTime) (id : Uuid) (username hash : String)
      → Leaves P (insert_local_credential now id username hash db)
  insert_local_credential-Leaves now id username hash =
      kept.insert_local_credential_law now id username hash db h

  pub update_password_hash-Leaves :
      (now : OffsetDateTime) (hash : String) (id : Uuid)
      → Leaves P (update_password_hash now hash id db)
  update_password_hash-Leaves now hash id = kept.update_password_hash_law now hash id db h

  pub update_user_role-Leaves :
      (now : OffsetDateTime) (role : Role) (id : Uuid) → Leaves P (update_user_role now role id db)
  update_user_role-Leaves now role id = kept.update_user_role_law now role id db h

  pub deactivate_user-Leaves :
      (now : OffsetDateTime) (id : Uuid) → Leaves P (deactivate_user now id db)
  deactivate_user-Leaves now id = kept.deactivate_user_law now id db h

  pub insert_oauth_credential-Leaves :
      (oc : OAuthCredential) → Leaves P (insert_oauth_credential oc db)
  insert_oauth_credential-Leaves oc = kept.insert_oauth_credential_law oc db h

  pub delete_oauth_credential-Leaves :
      (id : Uuid) (p : Provider) → Leaves P (delete_oauth_credential id p db)
  delete_oauth_credential-Leaves id p = kept.delete_oauth_credential_law id p db h

  pub insert_refresh_token-Leaves : (t : RefreshTokenRow) → Leaves P (insert_refresh_token t db)
  insert_refresh_token-Leaves t = kept.insert_refresh_token_law t db h

  pub revoke_token-Leaves : (id : Uuid) → Leaves P (revoke_token id db)
  revoke_token-Leaves id = kept.revoke_token_law id db h

  pub revoke_user_tokens-Leaves : (id : Uuid) → Leaves P (revoke_user_tokens id db)
  revoke_user_tokens-Leaves id = kept.revoke_user_tokens_law id db h

-- The statements that only read keep every predicate.
module _ {P : Db → Type 0} (db : Db) (h : P db) where
  pub select_user-Leaves : (id : Uuid) → Leaves P (select_user id db)
  unfolding select_user
  select_user-Leaves id = leaves h

  pub select_user_by_email-Leaves : (email : String) → Leaves P (select_user_by_email email db)
  unfolding select_user_by_email
  select_user_by_email-Leaves email = leaves h

  pub select_local_credential-Leaves : (id : Uuid) → Leaves P (select_local_credential id db)
  unfolding select_local_credential
  select_local_credential-Leaves id = leaves h

  pub select_user_by_identity-Leaves :
      (provider : Provider) (id : String) → Leaves P (select_user_by_identity provider id db)
  unfolding select_user_by_identity
  select_user_by_identity-Leaves provider id = leaves h

  pub select_connections-Leaves : (id : Uuid) → Leaves P (select_connections id db)
  unfolding select_connections
  select_connections-Leaves id = leaves h

  pub select_refresh_token-Leaves :
      (lookup_key : String) → Leaves P (select_refresh_token lookup_key db)
  unfolding select_refresh_token
  select_refresh_token-Leaves lookup_key = leaves h

pub ruleset statement_rules = (
  insert_user-Leaves, insert_local_credential-Leaves, update_user_role-Leaves,
  deactivate_user-Leaves, update_password_hash-Leaves, insert_oauth_credential-Leaves,
  delete_oauth_credential-Leaves, insert_refresh_token-Leaves, revoke_token-Leaves,
  revoke_user_tokens-Leaves, select_user-Leaves, select_user_by_email-Leaves,
  select_local_credential-Leaves, select_user_by_identity-Leaves, select_connections-Leaves,
  select_refresh_token-Leaves,
)
