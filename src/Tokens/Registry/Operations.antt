-- ===== src/Tokens/Registry/Operations.antt =====
-- services/token.rs on the registry: `create_refresh_token` issues a key, and `rotate_refresh_token`
-- spends one and issues another to its owner.
use mathlib.Core.Path.{subst}
use yaima.Base.{
  ℕ, suc, String, ◌≡◌, refl, ap, sym, ◌∙◌, Bool, true, false, some, ◌||◌, not, if◌then◌else◌, ltb,
  find, has_key, string_eq, nat_eq, ◌==◌, arith, find-eq-some,
}
use text.Mathlib.TextEquality.{eq_iff}
use yaima.Config.{Config}
use yaima.Models.{Uuid}
use yaima.Errors.{SqlxError}
use yaima.External.{Env}
use yaima.Db.{
  Db, Answer, answered, refused, RefreshTokenRow, insert_refresh_token, select_refresh_token,
  revoke_token,
}
use yaima.Db.Schema.{IsConsistent}
use yaima.Db.Inserts.{answer}
use yaima.Program.{World}
use yaima.Program.Inversion.{
  Returns, pure-Returns, in_branch, not_raise, after, after_raise_if, after_query, after_ok_or,
  after_sample,
}
use yaima.Tokens.Creation.{create_refresh_token-inserts}
use yaima.Tokens.{
  compute_lookup_key, create_refresh_token, rotate_live_token, reject_token, rotate_refresh_token,
}
use yaima.Tokens.Registry.{entry_of, registry, spent, set, Issues, Rotates}
use yaima.Tokens.Registry.Table.{find_by_key}
use yaima.Tokens.Registry.Statements.{with_revoked, with_revoked-registry}
use yaima.Tokens.Registry.Changes.{with_inserted, free-absent, with_inserted-registry}

-- A statement under four constraints that is answered violates none.
none_refused :
    {A : Type 0} (o p q r : Bool) (d e f g : SqlxError) (m : Answer A) (a : A) (db : Db)
    → (if o
        then refused d
        else if p
        then refused e
        else if q
        then refused f
        else if r
        then refused g
        else m)
      ≡ answered a db
    → (q ≡ false) × (m ≡ answered a db)
none_refused true p q r d e f g m a db h = cc
none_refused false true q r d e f g m a db h = cc
none_refused false false true r d e f g m a db h = cc
none_refused false false false true d e f g m a db h = cc
none_refused false false false false d e f g m a db h = (refl, h)

insert_refresh_token-Issues :
    (t : RefreshTokenRow) (db db' : Db) (u : Unit)
    → insert_refresh_token t db ≡ answered u db'
    → Issues t.lookup_key t.user_id (registry db) (registry db')
unfolding insert_refresh_token
insert_refresh_token-Issues t db db' u h =
    let (free, h) =
      none_refused (has_key (λ x. x.id) t.id db.refresh_tokens)
        (has_key (λ x. x.token_hash) t.token_hash db.refresh_tokens)
        (has_key (λ x. x.lookup_key) t.lookup_key db.refresh_tokens)
        (not (has_key (λ u. u.id) t.user_id db.users)) _ _ _ _ _ u db' h in
    record {
      was_absent = free-absent db t free;
      becomes =
          ap registry (answer tt u (with_inserted t db) db' h).1 ∙ with_inserted-registry db t free;
    }

key_of :
    (t : RefreshTokenRow) (db : Db) (key : String)
    → find (λ t. t.lookup_key == key) db.refresh_tokens ≡ some t
    → t.lookup_key ≡ key
key_of t db key found =
    (eq_iff t.lookup_key key).0 (find-eq-some (λ t. t.lookup_key == key) db.refresh_tokens t found)

module _ {S : Type 0} (env : Env S) where
  module _ (config : Config) where
    create_refresh_token-Issues :
        (id : Uuid) (w : World S) (raw : String) (w' : World S)
        → Returns (create_refresh_token env config id) w raw w'
        → Issues (compute_lookup_key env config raw) id (registry w.db) (registry w'.db)
    create_refresh_token-Issues id w raw w' h =
        let (t, keyed, owned, inserted) = create_refresh_token-inserts env config id w raw w' h in
        subst (λ k. Issues k id (registry w.db) (registry w'.db)) keyed
          (subst (λ i. Issues t.lookup_key i (registry w.db) (registry w'.db)) owned
            (insert_refresh_token-Issues t w.db w'.db tt inserted))

    revoked_left :
        (id : Uuid) (db db' : Db) (u : Unit)
        → revoke_token id db ≡ answered u db'
        → db' ≡ with_revoked id db
    unfolding revoke_token
    revoked_left id db db' u h = (answer tt u (with_revoked id db) db' h).1

    rotate_live_token-Rotates :
        (raw : String) (t : RefreshTokenRow) (w : World S) (r : String × Uuid) (w' : World S)
        → IsConsistent w.db
        → t.revoked ≡ false
        → find (λ t. t.lookup_key == compute_lookup_key env config raw) w.db.refresh_tokens ≡ some t
        → Returns (rotate_live_token env config raw t) w r w'
        → Rotates
            (compute_lookup_key env config raw)
            (compute_lookup_key env config r.0)
            r.1
            (registry w.db)
            (registry w'.db)
    unfolding rotate_live_token
    rotate_live_token-Rotates raw t w r w' c alive found h = after_raise_if w r w' _ _ _ h λ _ h.
        after_raise_if w r w' _ _ _ h λ _ h. after_query w r w' _ env _ _ h λ u w₁ revoked h.
          after w₁ r w' _ _ h λ new_raw w₂ created h.
            let key = compute_lookup_key env config raw in
            let (is, left) = pure-Returns _ w₂ r w' h in
            let keyed : t.lookup_key ≡ key = key_of t w.db key found in
            let by_id =
              find_by_key {K = ℕ} (λ x. x.id) (λ x. x.lookup_key == key) w.db.refresh_tokens t
                c.tokens_pkey found in
            let spent_now : registry w₁.db ≡ set key (spent t.user_id) (registry w.db) =
              ap registry (revoked_left t.id w.db w₁.db u revoked)
              ∙ with_revoked-registry w.db c t.id t by_id
              ∙ ap (λ k. set k (spent t.user_id) (registry w.db)) keyed in
            let done : Rotates key (compute_lookup_key env config new_raw) t.user_id (registry w.db)
                (registry w₂.db) =
              record {
                was_live = ap entry_of found ∙ rw alive;
                renews =
                    subst
                      (λ f.
                        Issues (compute_lookup_key env config new_raw) t.user_id f (registry w₂.db))
                      spent_now (create_refresh_token-Issues t.user_id w₁ new_raw w₂ created);
              } in
            subst
              (λ (x : (String × Uuid) × World S).
                Rotates key (compute_lookup_key env config x.0.0) x.0.1 (registry w.db)
                  (registry x.1.db))
              (ap (λ a. (a, w₂)) is ∙ ap (λ x. (r, x)) left) done

    -- A rotation that returns, in a database that meets the constraints of the schema, found the key
    -- of the token live for the user that it returns, left it spent, and made the key of the new
    -- token, which was absent, live for the same user; no other key changed.
    pub rotate_refresh_token-Rotates :
        (raw : String) (w : World S) (r : String × Uuid) (w' : World S)
        → IsConsistent w.db
        → Returns (rotate_refresh_token env config raw) w r w'
        → Rotates
            (compute_lookup_key env config raw)
            (compute_lookup_key env config r.0)
            r.1
            (registry w.db)
            (registry w'.db)
    unfolding rotate_refresh_token select_refresh_token reject_token
    rotate_refresh_token-Rotates raw w r w' c h = after_query w r w' _ env _ _ h λ o w₁ selected h.
        after_ok_or w₁ r w' o _ _ h λ t found h. after_sample w₁ r w' _ _ h λ h.
          in_branch (record w₁ { tick = suc w₁.tick }) r w'
            (t.revoked || ltb t.expires_at (env.now w₁.tick)) _ _ h
            (λ _ h. after _ r w' _ _ h λ _ w₂ _ h. not_raise w₂ r w' _ h)
            λ usable h.
              let row : find (λ t. t.lookup_key == compute_lookup_key env config raw)
                    w₁.db.refresh_tokens
                  ≡ some t =
                cc in
              let same : w₁.db ≡ w.db = (answer _ o w.db w₁.db selected).1 in
              subst
                (λ db.
                  Rotates (compute_lookup_key env config raw) (compute_lookup_key env config r.0)
                    r.1 (registry db) (registry w'.db))
                same
                (rotate_live_token-Rotates raw t (record w₁ { tick = suc w₁.tick }) r w'
                  (subst IsConsistent (sym same) c) (ground arith) row h)
