-- ===== src/Auth/Issued.antt =====
-- services/auth.rs `issue_tokens`: the session that it stores, and nothing else.
use yaima.Base.{
  String, ◌≡◌, refl, ap, sym, ◌∙◌, Bool, true, false, not, [], ◌∷◌, ◌++◌, if◌then◌else◌, nat_eq,
  string_eq, has_key,
}
use yaima.Config.{Config}
use yaima.Models.{Uuid, Role, AuthMethod, UserView, AuthResponse}
use yaima.Errors.{SqlxError}
use yaima.External.{Env}
use yaima.Db.{Db, RefreshTokenRow, Answer, answered, refused, insert_refresh_token}
use yaima.Db.Inserts.{answer}
use yaima.Program.{World}
use yaima.Program.Inversion.{Returns, after, after_sample, pure-Returns, ok_or-Returns}
use yaima.Tokens.{compute_lookup_key, generate_access_token}
use yaima.Tokens.Creation.{create_refresh_token-inserts}
use yaima.Auth.{issue_tokens}

-- A statement under four constraints that is answered violates none.
unrefused :
    {A : Type 0} (p q r s : Bool) (e f g h : SqlxError) (m : Answer A) (a : A) (db : Db)
    → (if p
        then refused e
        else if q
        then refused f
        else if r
        then refused g
        else if s
        then refused h
        else m)
      ≡ answered a db
    → m ≡ answered a db
unrefused true q r s e f g h m a db is = cc
unrefused false true r s e f g h m a db is = cc
unrefused false false true s e f g h m a db is = cc
unrefused false false false true e f g h m a db is = cc
unrefused false false false false e f g h m a db is = is

insert_refresh_token-stores :
    (t : RefreshTokenRow) (db db' : Db)
    → insert_refresh_token t db ≡ answered tt db'
    → db' ≡ record db { refresh_tokens = db.refresh_tokens ++ record t { revoked = false } ∷ [] }
unfolding insert_refresh_token
insert_refresh_token-stores t db db' is =
    (answer tt tt _ db' (
      unrefused (has_key (λ x. x.id) t.id db.refresh_tokens)
        (has_key (λ x. x.token_hash) t.token_hash db.refresh_tokens)
        (has_key (λ x. x.lookup_key) t.lookup_key db.refresh_tokens)
        (not (has_key (λ u. u.id) t.user_id db.users)) _ _ _ _ _ tt db' is)).1

module _ {S : Type 0} (env : Env S) (config : Config) where
  -- A session that was issued: the row of its refresh token, live and of its user, is at the end of
  -- the table, and the database is otherwise as it was.
  pub record IsIssued (id : Uuid) (r : AuthResponse) (before after : Db) : Type 0 where
    pub token : RefreshTokenRow
    pub keyed : token.lookup_key ≡ compute_lookup_key env config r.refresh_token
    pub owned : token.user_id ≡ id
    pub live : token.revoked ≡ false
    pub stored : after ≡ record before { refresh_tokens = before.refresh_tokens ++ token ∷ [] }

  generate_access_token-same :
      (id : Uuid) (email name : String) (role : Role) (m : AuthMethod) (w : World S)
      (token : String) (w' : World S)
      → Returns (generate_access_token env config id email name role m) w token w'
      → w'.db ≡ w.db
  unfolding generate_access_token
  generate_access_token-same id email name role m w token w' h =
      after_sample w token w' _ _ h λ h. ap (λ x. x.db) (sym (ok_or-Returns _ _ _ token w' h).1)

  pub issue_tokens-IsIssued :
      (id : Uuid) (email name : String) (role : Role) (m : AuthMethod) (view : UserView)
      (w : World S) (r : AuthResponse) (w' : World S)
      → Returns (issue_tokens env config id email name role m view) w r w'
      → IsIssued id r w.db w'.db
  unfolding issue_tokens
  issue_tokens-IsIssued id email name role m view w r w' h = after w r w' _ _ h λ access w₁ first h.
      after w₁ r w' _ _ h λ refresh w₂ second h.
        let (is, left) = pure-Returns _ w₂ r w' h in
        let same = generate_access_token-same id email name role m w access w₁ first in
        let (t, keyed, owned, inserted) =
          create_refresh_token-inserts env config id w₁ refresh w₂ second in
        record {
          token = record t { revoked = false };
          keyed =
              keyed ∙ ap (λ (r : AuthResponse). compute_lookup_key env config r.refresh_token) is;
          owned = owned;
          live = refl;
          stored =
              ap (λ x. x.db) (sym left)
              ∙ insert_refresh_token-stores t w₁.db w₂.db inserted
              ∙ ap
                  (λ (db : Db). record db {
                    refresh_tokens = db.refresh_tokens ++ record t { revoked = false } ∷ [];
                  })
                  same;
        }
