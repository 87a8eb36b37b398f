-- ===== src/Tokens/Spent.antt =====
-- What stays true of a stored refresh token: that it is revoked, and whose it is.
use yaima.Base.{
  String, ◌≡◌, refl, Bool, true, false, some, [], ◌∷◌, ◌++◌, ◌==◌, nat_eq, string_eq, if◌then◌else◌,
  find, update_where, find-append_found, find-update_where,
}
use yaima.Models.{Uuid, OffsetDateTime}
use yaima.Db.{
  Db, OAuthCredential, RefreshTokenRow, revoke, insert_user, insert_local_credential,
  update_password_hash, update_user_role, deactivate_user, insert_oauth_credential,
  delete_oauth_credential, insert_refresh_token, revoke_token, revoke_user_tokens,
}
use yaima.Db.Statements.{Leaves, leaves, Leaves-if, Leaves-if_done, Statements}

-- The row that a lookup key finds has the property `Q`.
pub record IsStored (Q : RefreshTokenRow → Type 0) (key : String) (db : Db) : Type 0 where
  pub row : RefreshTokenRow
  pub found : find (λ t. t.lookup_key == key) db.refresh_tokens ≡ some row
  pub holds : Q row

abbrev pub IsSpent : String → Db → Type 0
IsSpent = IsStored (λ t. t.revoked ≡ true)

abbrev pub IsOf : Uuid → String → Db → Type 0
IsOf id = IsStored (λ t. t.user_id ≡ id)

-- No statement takes a property away that revoking leaves alone: rows are never deleted, and
-- nothing else of them is changed.
module _ (Q : RefreshTokenRow → Type 0) (key : String)
    (stable : (t : RefreshTokenRow) → Q t → Q (revoke t)) where
  IsStored-update :
      (q : RefreshTokenRow → Bool) (db : Db)
      → IsStored Q key db
      → IsStored Q key (record db { refresh_tokens = update_where q revoke db.refresh_tokens })
  IsStored-update q db h = record {
    row = if q h.row then revoke h.row else h.row;
    found =
        find-update_where (λ t. t.lookup_key == key) q revoke db.refresh_tokens h.row (λ t. refl)
          h.found;
    holds = elim (q h.row) as (λ b. Q (if b then revoke h.row else h.row)) [
      | true ↦ stable h.row h.holds
      | false ↦ h.holds
    ];
  }

  IsStored-insert :
      (t : RefreshTokenRow) (db : Db)
      → IsStored Q key db
      → IsStored Q key (record db { refresh_tokens = db.refresh_tokens ++ t ∷ [] })
  IsStored-insert t db h = record {
    row = h.row;
    found = find-append_found (λ t. t.lookup_key == key) db.refresh_tokens t h.row h.found;
    holds = h.holds;
  }

  -- A statement that leaves the tokens alone.
  IsStored-carry :
      {db db' : Db}
      → IsStored Q key db
      → db'.refresh_tokens ≡ db.refresh_tokens
      → IsStored Q key db'
  IsStored-carry h e = record { row = h.row; found = rw e h.found; holds = h.holds }

  insert_user-IsStored :
      (now : OffsetDateTime) (id : Uuid) (email name : String) (db : Db)
      → IsStored Q key db
      → Leaves (IsStored Q key) (insert_user now id email name db)
  unfolding insert_user
  insert_user-IsStored now id email name db h = search (Leaves-if, leaves, IsStored-carry h refl)

  insert_local_credential-IsStored :
      (now : OffsetDateTime) (id : Uuid) (username hash : String) (db : Db)
      → IsStored Q key db
      → Leaves (IsStored Q key) (insert_local_credential now id username hash db)
  unfolding insert_local_credential
  insert_local_credential-IsStored now id username hash db h =
      search (Leaves-if, leaves, IsStored-carry h refl)

  insert_oauth_credential-IsStored :
      (oc : OAuthCredential) (db : Db)
      → IsStored Q key db
      → Leaves (IsStored Q key) (insert_oauth_credential oc db)
  unfolding insert_oauth_credential
  insert_oauth_credential-IsStored oc db h =
      search (Leaves-if_done, Leaves-if, leaves, IsStored-carry h refl)

  insert_refresh_token-IsStored :
      (t : RefreshTokenRow) (db : Db)
      → IsStored Q key db
      → Leaves (IsStored Q key) (insert_refresh_token t db)
  unfolding insert_refresh_token
  insert_refresh_token-IsStored t db h =
      search (Leaves-if, leaves, IsStored-insert (record t { revoked = false }) db h)

  IsStored-statements : Statements (IsStored Q key)
  unfolding update_password_hash update_user_role deactivate_user delete_oauth_credential
      revoke_token revoke_user_tokens
  IsStored-statements = record {
    insert_user_law = insert_user-IsStored;
    insert_local_credential_law = insert_local_credential-IsStored;
    update_password_hash_law = λ now hash id db h. leaves (IsStored-carry h refl);
    update_user_role_law = λ now role id db h. leaves (IsStored-carry h refl);
    deactivate_user_law = λ now id db h. leaves (IsStored-carry h refl);
    insert_oauth_credential_law = insert_oauth_credential-IsStored;
    delete_oauth_credential_law = λ id p db h. leaves (IsStored-carry h refl);
    insert_refresh_token_law = insert_refresh_token-IsStored;
    revoke_token_law = λ id db h. leaves (IsStored-update _ db h);
    revoke_user_tokens_law = λ id db h. leaves (IsStored-update _ db h);
  }

pub IsSpent-statements : (key : String) → Statements (IsSpent key)
IsSpent-statements key = IsStored-statements (λ t. t.revoked ≡ true) key (λ t h. refl)

pub IsOf-statements : (id : Uuid) (key : String) → Statements (IsOf id key)
IsOf-statements id key = IsStored-statements (λ t. t.user_id ≡ id) key (λ t h. h)
