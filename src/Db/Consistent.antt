-- ===== src/Db/Consistent.antt =====
-- The constraints of the schema under every statement of the program.
use yaima.Base.{
  ℕ, String, refl, Bool, List, [], ◌∷◌, ◌++◌, nat_eq, string_eq, pair_eq, update_where, IsUnique,
  IsUnique-append, IsUnique-update_where, IsUnique-select, All-append, All-select, false,
}
use yaima.Models.{Uuid, Provider, provider_eq}
use yaima.Db.Statements.{Leaves, leaves, Leaves-if, Leaves-if_done, Statements}
use yaima.Db.{
  Db, OAuthCredential, RefreshTokenRow, insert_oauth_credential, delete_oauth_credential,
  insert_refresh_token, revoke_token, revoke_user_tokens, revoke,
}
use yaima.Db.Schema.{IsOwned, identity, IsConsistent, IsOwned-update, owner_found}
use yaima.Db.Accounts.{
  deactivate_user-IsConsistent, insert_local_credential-IsConsistent, insert_user-IsConsistent,
  update_password_hash-IsConsistent, update_user_role-IsConsistent,
}

module _ (db : Db) (c : IsConsistent db) where
  with_links :
      (links : List OAuthCredential)
      → IsUnique (λ oc. oc.id) links
      → IsUnique identity links
      → IsOwned (λ oc. oc.user_id) db.users links
      → IsConsistent (record db { oauth_credentials = links })
  with_links links ids identities owned = record {
    users_pkey = c.users_pkey;
    users_email_key = c.users_email_key;
    users_username_key = c.users_username_key;
    credentials_pkey = c.credentials_pkey;
    credentials_username_key = c.credentials_username_key;
    credentials_owned = c.credentials_owned;
    oauth_pkey = ids;
    oauth_identity_key = identities;
    oauth_owned = owned;
    tokens_pkey = c.tokens_pkey;
    tokens_hash_key = c.tokens_hash_key;
    tokens_lookup_key = c.tokens_lookup_key;
    tokens_owned = c.tokens_owned;
  }

  insert_oauth_credential-IsConsistent :
      (oc : OAuthCredential) → Leaves IsConsistent (insert_oauth_credential oc db)
  unfolding insert_oauth_credential
  insert_oauth_credential-IsConsistent oc = Leaves-if_done _ _ _ _ c λ new_link.
      Leaves-if _ _ _ λ new_id. Leaves-if _ _ _ λ owner. leaves (
        with_links (db.oauth_credentials ++ oc ∷ [])
          (IsUnique-append {K = ℕ} (λ oc. oc.id) db.oauth_credentials oc new_id c.oauth_pkey)
          (IsUnique-append {K = Provider × String} identity db.oauth_credentials oc new_link
            c.oauth_identity_key)
          (All-append _ db.oauth_credentials oc c.oauth_owned (owner_found _ owner)))

  delete_oauth_credential-IsConsistent :
      (user_id : Uuid) (provider : Provider)
      → Leaves IsConsistent (delete_oauth_credential user_id provider db)
  unfolding delete_oauth_credential
  delete_oauth_credential-IsConsistent user_id provider = leaves (
      with_links _ (IsUnique-select {K = ℕ} (λ oc. oc.id) _ db.oauth_credentials c.oauth_pkey)
        (IsUnique-select {K = Provider × String} identity _ db.oauth_credentials
          c.oauth_identity_key)
        (All-select _ _ db.oauth_credentials c.oauth_owned))

  with_tokens :
      (tokens : List RefreshTokenRow)
      → IsUnique (λ t. t.id) tokens
      → IsUnique (λ t. t.token_hash) tokens
      → IsUnique (λ t. t.lookup_key) tokens
      → IsOwned (λ t. t.user_id) db.users tokens
      → IsConsistent (record db { refresh_tokens = tokens })
  with_tokens tokens ids hashes keys owned = record {
    users_pkey = c.users_pkey;
    users_email_key = c.users_email_key;
    users_username_key = c.users_username_key;
    credentials_pkey = c.credentials_pkey;
    credentials_username_key = c.credentials_username_key;
    credentials_owned = c.credentials_owned;
    oauth_pkey = c.oauth_pkey;
    oauth_identity_key = c.oauth_identity_key;
    oauth_owned = c.oauth_owned;
    tokens_pkey = ids;
    tokens_hash_key = hashes;
    tokens_lookup_key = keys;
    tokens_owned = owned;
  }

  insert_refresh_token-IsConsistent :
      (t : RefreshTokenRow) → Leaves IsConsistent (insert_refresh_token t db)
  unfolding insert_refresh_token
  insert_refresh_token-IsConsistent t =
      let row = record t { revoked = false } in
      Leaves-if _ _ _ λ new_id. Leaves-if _ _ _ λ new_hash. Leaves-if _ _ _ λ new_key.
        Leaves-if _ _ _ λ owner. leaves (
          with_tokens (db.refresh_tokens ++ row ∷ [])
            (IsUnique-append {K = ℕ} (λ t. t.id) db.refresh_tokens row new_id c.tokens_pkey)
            (IsUnique-append {K = String} (λ t. t.token_hash) db.refresh_tokens row new_hash
              c.tokens_hash_key)
            (IsUnique-append {K = String} (λ t. t.lookup_key) db.refresh_tokens row new_key
              c.tokens_lookup_key)
            (All-append _ db.refresh_tokens row c.tokens_owned (owner_found _ owner)))

  revoke_where-IsConsistent :
      (q : RefreshTokenRow → Bool)
      → IsConsistent (record db { refresh_tokens = update_where q revoke db.refresh_tokens })
  revoke_where-IsConsistent q =
      with_tokens _
        (IsUnique-update_where {K = ℕ} (λ t. t.id) q revoke db.refresh_tokens (λ t. refl)
          c.tokens_pkey)
        (IsUnique-update_where {K = String} (λ t. t.token_hash) q revoke db.refresh_tokens
          (λ t. refl) c.tokens_hash_key)
        (IsUnique-update_where {K = String} (λ t. t.lookup_key) q revoke db.refresh_tokens
          (λ t. refl) c.tokens_lookup_key)
        (IsOwned-update _ q revoke db.users db.refresh_tokens (λ t. refl) c.tokens_owned)

  revoke_token-IsConsistent : (id : Uuid) → Leaves IsConsistent (revoke_token id db)
  unfolding revoke_token
  revoke_token-IsConsistent id = leaves (revoke_where-IsConsistent _)

  revoke_user_tokens-IsConsistent : (id : Uuid) → Leaves IsConsistent (revoke_user_tokens id db)
  unfolding revoke_user_tokens
  revoke_user_tokens-IsConsistent id = leaves (revoke_where-IsConsistent _)

-- Every statement keeps the constraints.
pub IsConsistent-statements : Statements IsConsistent
IsConsistent-statements = record {
  insert_user_law = λ now id email name db c. insert_user-IsConsistent db c now id email name;
  insert_local_credential_law =
      λ now id username hash db c. insert_local_credential-IsConsistent db c now id username hash;
  update_password_hash_law = λ now hash id db c. update_password_hash-IsConsistent db c now hash id;
  update_user_role_law = λ now role id db c. update_user_role-IsConsistent db c now role id;
  deactivate_user_law = λ now id db c. deactivate_user-IsConsistent db c now id;
  insert_oauth_credential_law = λ oc db c. insert_oauth_credential-IsConsistent db c oc;
  delete_oauth_credential_law = λ id p db c. delete_oauth_credential-IsConsistent db c id p;
  insert_refresh_token_law = λ t db c. insert_refresh_token-IsConsistent db c t;
  revoke_token_law = λ id db c. revoke_token-IsConsistent db c id;
  revoke_user_tokens_law = λ id db c. revoke_user_tokens-IsConsistent db c id;
}
