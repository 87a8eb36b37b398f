-- ===== src/Tokens/Registry/Refinement.antt =====
-- Every statement of the program is steps of the registry, so that any requests are.
use yaima.Base.{String, ◌≡◌, sym, false, nat_eq, string_eq, has_key}
use mathlib.Core.Path.{subst}
use yaima.Models.{Uuid, OffsetDateTime}
use yaima.Db.{
  Db, Answer, answered, OAuthCredential, RefreshTokenRow, insert_user, insert_local_credential,
  update_password_hash, update_user_role, deactivate_user, insert_oauth_credential,
  delete_oauth_credential, insert_refresh_token, revoke_token, revoke_user_tokens,
}
use yaima.Db.Statements.{Leaves, stays, leaves, Leaves-if, Leaves-if_done, Statements}
use yaima.Db.Schema.{IsConsistent}
use yaima.Db.Consistent.{IsConsistent-statements}
use yaima.Tokens.Registry.{Registry, registry, Evolves, issue, spend_user}
use yaima.Tokens.Registry.Statements.{with_revoked-Evolves}
use yaima.Tokens.Registry.Changes.{
  with_inserted, free-absent, with_inserted-registry, with_all_revoked-registry,
}

Leaves-both :
    {A : Type 0} {P Q : Db → Type 0} {a : Answer A}
    → Leaves P a
    → Leaves Q a
    → Leaves (λ db. P db × Q db) a
Leaves-both stays stays = stays
Leaves-both (leaves p) (leaves q) = leaves (p, q)

module _ (f : Registry) where
  abbrev pub Tracks : Db → Type 0
  Tracks db = IsConsistent db × Evolves f (registry db)

  abbrev Reached : Db → Type 0
  Reached db = Evolves f (registry db)

  insert_user-Reached :
      (now : OffsetDateTime) (id : Uuid) (email name : String) (db : Db)
      → Reached db
      → Leaves Reached (insert_user now id email name db)
  unfolding insert_user
  insert_user-Reached now id email name db h = search (Leaves-if, leaves, h)

  insert_local_credential-Reached :
      (now : OffsetDateTime) (id : Uuid) (username hash : String) (db : Db)
      → Reached db
      → Leaves Reached (insert_local_credential now id username hash db)
  unfolding insert_local_credential
  insert_local_credential-Reached now id username hash db h = search (Leaves-if, leaves, h)

  insert_oauth_credential-Reached :
      (oc : OAuthCredential) (db : Db) → Reached db → Leaves Reached (insert_oauth_credential oc db)
  unfolding insert_oauth_credential
  insert_oauth_credential-Reached oc db h = search (Leaves-if_done, Leaves-if, leaves, h)

  Leaves-inserted :
      (t : RefreshTokenRow) (db : Db)
      → Reached db
      → has_key (λ x. x.lookup_key) t.lookup_key db.refresh_tokens ≡ false
      → Leaves Reached (answered tt (with_inserted t db))
  Leaves-inserted t db h free = leaves (
      subst (Evolves f) (sym (with_inserted-registry db t free))
        (issue t.lookup_key t.user_id h (free-absent db t free)))

  insert_refresh_token-Reached :
      (t : RefreshTokenRow) (db : Db) → Reached db → Leaves Reached (insert_refresh_token t db)
  unfolding insert_refresh_token
  insert_refresh_token-Reached t db h = search (Leaves-if, Leaves-inserted t db h)

  revoke_token-Reached : (id : Uuid) (db : Db) → Tracks db → Leaves Reached (revoke_token id db)
  unfolding revoke_token
  revoke_token-Reached id db (c, h) = leaves (with_revoked-Evolves f db id c h)

  revoke_user_tokens-Reached :
      (id : Uuid) (db : Db) → Reached db → Leaves Reached (revoke_user_tokens id db)
  unfolding revoke_user_tokens
  revoke_user_tokens-Reached id db h =
      leaves (subst (Evolves f) (sym (with_all_revoked-registry db id)) (spend_user id h))

  pub Tracks-statements : Statements Tracks
  unfolding update_password_hash update_user_role deactivate_user delete_oauth_credential
  Tracks-statements =
      let c = IsConsistent-statements in
      record {
        insert_user_law = λ now id email name db h.
            Leaves-both (c.insert_user_law now id email name db h.0)
              (insert_user-Reached now id email name db h.1);
        insert_local_credential_law = λ now id username hash db h.
            Leaves-both (c.insert_local_credential_law now id username hash db h.0)
              (insert_local_credential-Reached now id username hash db h.1);
        update_password_hash_law = λ now hash id db h.
            Leaves-both (c.update_password_hash_law now hash id db h.0) (leaves h.1);
        update_user_role_law = λ now role id db h.
            Leaves-both (c.update_user_role_law now role id db h.0) (leaves h.1);
        deactivate_user_law =
            λ now id db h. Leaves-both (c.deactivate_user_law now id db h.0) (leaves h.1);
        insert_oauth_credential_law = λ oc db h.
            Leaves-both (c.insert_oauth_credential_law oc db h.0)
              (insert_oauth_credential-Reached oc db h.1);
        delete_oauth_credential_law =
            λ id p db h. Leaves-both (c.delete_oauth_credential_law id p db h.0) (leaves h.1);
        insert_refresh_token_law = λ t db h.
            Leaves-both (c.insert_refresh_token_law t db h.0)
              (insert_refresh_token-Reached t db h.1);
        revoke_token_law =
            λ id db h. Leaves-both (c.revoke_token_law id db h.0) (revoke_token-Reached id db h);
        revoke_user_tokens_law = λ id db h.
            Leaves-both (c.revoke_user_tokens_law id db h.0) (revoke_user_tokens-Reached id db h.1);
      }
