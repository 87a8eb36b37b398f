-- ===== src/Db/Accounts.antt =====
-- The constraints of the schema under the statements on users and local credentials.
use yaima.Base.{
  ℕ, String, ◌≡◌, refl, Bool, ◌==◌, nat_eq, string_eq, pair_eq, update_where, IsUnique-append,
  IsUnique-update_where, All-append,
}
use yaima.Models.{Uuid, OffsetDateTime, Role, User, LocalCredential, provider_eq}
use yaima.Db.Statements.{Leaves, leaves, Leaves-if}
use yaima.Db.{
  Db, new_user, new_credential, insert_user, insert_local_credential, update_password_hash,
  update_user_role, deactivate_user,
}
use yaima.Db.Schema.{
  IsConsistent, IsOwned-append_user, IsOwned-update_users, IsOwned-update, owner_found,
}

module _ (db : Db) (c : IsConsistent db) where
  pub insert_user-IsConsistent :
      (now : OffsetDateTime) (id : Uuid) (email display_name : String)
      → Leaves IsConsistent (insert_user now id email display_name db)
  unfolding insert_user
  insert_user-IsConsistent now id email display_name =
      let u : User = new_user now id email display_name in
      Leaves-if _ _ _ λ new_id. Leaves-if _ _ _ λ new_email. Leaves-if _ _ _ λ new_name.
        leaves (record {
          users_pkey = IsUnique-append {K = ℕ} (λ u. u.id) db.users u new_id c.users_pkey;
          users_email_key =
              IsUnique-append {K = String} (λ u. u.email) db.users u new_email c.users_email_key;
          users_username_key =
              IsUnique-append {K = String} (λ u. u.display_name) db.users u new_name
                c.users_username_key;
          credentials_pkey = c.credentials_pkey;
          credentials_username_key = c.credentials_username_key;
          credentials_owned = IsOwned-append_user _ db.users u _ c.credentials_owned;
          oauth_pkey = c.oauth_pkey;
          oauth_identity_key = c.oauth_identity_key;
          oauth_owned = IsOwned-append_user _ db.users u _ c.oauth_owned;
          tokens_pkey = c.tokens_pkey;
          tokens_hash_key = c.tokens_hash_key;
          tokens_lookup_key = c.tokens_lookup_key;
          tokens_owned = IsOwned-append_user _ db.users u _ c.tokens_owned;
        })

  pub insert_local_credential-IsConsistent :
      (now : OffsetDateTime) (user_id : Uuid) (username password_hash : String)
      → Leaves IsConsistent (insert_local_credential now user_id username password_hash db)
  unfolding insert_local_credential
  insert_local_credential-IsConsistent now user_id username password_hash =
      let x : LocalCredential = new_credential now user_id username password_hash in
      Leaves-if _ _ _ λ new_user_id. Leaves-if _ _ _ λ new_name. Leaves-if _ _ _ λ owner.
        leaves (record {
          users_pkey = c.users_pkey;
          users_email_key = c.users_email_key;
          users_username_key = c.users_username_key;
          credentials_pkey =
              IsUnique-append {K = ℕ} (λ c. c.user_id) db.local_credentials x new_user_id
                c.credentials_pkey;
          credentials_username_key =
              IsUnique-append {K = String} (λ c. c.username) db.local_credentials x new_name
                c.credentials_username_key;
          credentials_owned =
              All-append _ db.local_credentials x c.credentials_owned (owner_found _ owner);
          oauth_pkey = c.oauth_pkey;
          oauth_identity_key = c.oauth_identity_key;
          oauth_owned = c.oauth_owned;
          tokens_pkey = c.tokens_pkey;
          tokens_hash_key = c.tokens_hash_key;
          tokens_lookup_key = c.tokens_lookup_key;
          tokens_owned = c.tokens_owned;
        })

  -- An update of users that leaves their keys alone.
  update_users-IsConsistent :
      (q : User → Bool) (f : User → User)
      → ((u : User) → (f u).id ≡ u.id)
      → ((u : User) → (f u).email ≡ u.email)
      → ((u : User) → (f u).display_name ≡ u.display_name)
      → IsConsistent (record db { users = update_where q f db.users })
  update_users-IsConsistent q f same_id same_email same_name = record {
    users_pkey = IsUnique-update_where {K = ℕ} (λ u. u.id) q f db.users same_id c.users_pkey;
    users_email_key =
        IsUnique-update_where {K = String} (λ u. u.email) q f db.users same_email c.users_email_key;
    users_username_key =
        IsUnique-update_where {K = String} (λ u. u.display_name) q f db.users same_name
          c.users_username_key;
    credentials_pkey = c.credentials_pkey;
    credentials_username_key = c.credentials_username_key;
    credentials_owned = IsOwned-update_users _ q f db.users _ same_id c.credentials_owned;
    oauth_pkey = c.oauth_pkey;
    oauth_identity_key = c.oauth_identity_key;
    oauth_owned = IsOwned-update_users _ q f db.users _ same_id c.oauth_owned;
    tokens_pkey = c.tokens_pkey;
    tokens_hash_key = c.tokens_hash_key;
    tokens_lookup_key = c.tokens_lookup_key;
    tokens_owned = IsOwned-update_users _ q f db.users _ same_id c.tokens_owned;
  }

  pub update_user_role-IsConsistent :
      (now : OffsetDateTime) (role : Role) (id : Uuid)
      → Leaves IsConsistent (update_user_role now role id db)
  unfolding update_user_role
  update_user_role-IsConsistent now role id =
      leaves (update_users-IsConsistent _ _ (λ u. refl) (λ u. refl) (λ u. refl))

  pub deactivate_user-IsConsistent :
      (now : OffsetDateTime) (id : Uuid) → Leaves IsConsistent (deactivate_user now id db)
  unfolding deactivate_user
  deactivate_user-IsConsistent now id =
      leaves (update_users-IsConsistent _ _ (λ u. refl) (λ u. refl) (λ u. refl))

  pub update_password_hash-IsConsistent :
      (now : OffsetDateTime) (new_hash : String) (user_id : Uuid)
      → Leaves IsConsistent (update_password_hash now new_hash user_id db)
  unfolding update_password_hash
  update_password_hash-IsConsistent now new_hash user_id =
      let mine = λ (c : LocalCredential). c.user_id == user_id in
      let changed =
        λ (c : LocalCredential). record c { password_hash = new_hash; updated_at = now } in
      leaves (record {
        users_pkey = c.users_pkey;
        users_email_key = c.users_email_key;
        users_username_key = c.users_username_key;
        credentials_pkey =
            IsUnique-update_where {K = ℕ} (λ c. c.user_id) mine changed db.local_credentials
              (λ x. refl) c.credentials_pkey;
        credentials_username_key =
            IsUnique-update_where {K = String} (λ c. c.username) mine changed db.local_credentials
              (λ x. refl) c.credentials_username_key;
        credentials_owned =
            IsOwned-update _ mine changed db.users db.local_credentials (λ x. refl)
              c.credentials_owned;
        oauth_pkey = c.oauth_pkey;
        oauth_identity_key = c.oauth_identity_key;
        oauth_owned = c.oauth_owned;
        tokens_pkey = c.tokens_pkey;
        tokens_hash_key = c.tokens_hash_key;
        tokens_lookup_key = c.tokens_lookup_key;
        tokens_owned = c.tokens_owned;
      })
  -- A database with other links, that are consistent.
