-- ===== src/Tokens/Rotation.antt =====
-- services/token.rs `rotate_refresh_token`: the row that it takes and what it leaves.
use mathlib.Core.Path.{subst}
use yaima.Base.{
  suc, Option, Option-cases, String, ◌≡◌, refl, ap, sym, ◌∙◌, true, false, ◌||◌, ◌&&◌, not, some,
  List, ◌==◌, ◌⊎◌, inl, inr, nat_eq, string_eq, arith, beq_refl, if◌then◌else◌, ltb, find,
  find-update_where,
}
use yaima.Config.{Config}
use yaima.Models.{Uuid}
use yaima.Errors.{SqlxError, database, refresh_token_invalid}
use yaima.External.{Env}
use yaima.Db.{
  Db, RefreshTokenRow, Answer, answered, refused, revoke, select_refresh_token, revoke_token,
  revoke_user_tokens,
}
use yaima.Program.{World, err, ◌>>=◌, map_err, query}
use yaima.Program.Inversion.{
  Returns, pure-Returns, map_err-Returns, query-Returns, query-ticks, Keeps-Returns, in_branch,
  not_raise, after, after_raise_if, after_query, after_ok_or, after_sample,
}
use yaima.Tokens.{
  compute_lookup_key, revoke_all_user_tokens, rotate_live_token, reject_token, rotate_refresh_token,
}
use yaima.Tokens.Keeps.{create_refresh_token-Keeps}
use yaima.Tokens.Spent.{IsSpent, IsOf, IsSpent-statements}

abbrev tokens_of : {A : Type 0} → Db → Answer A → List RefreshTokenRow
tokens_of db (answered a db') = db'.refresh_tokens
tokens_of db (refused e) = db.refresh_tokens

-- Revoking the row that a lookup key finds spends the key.
revoke_token-IsSpent :
    (key : String) (t : RefreshTokenRow) (db db' : Db) {u : Unit}
    → find (λ t. t.lookup_key == key) db.refresh_tokens ≡ some t
    → revoke_token t.id db ≡ answered u db'
    → IsSpent key db'
unfolding revoke_token
revoke_token-IsSpent key t db db' found e = record {
  row = revoke t;
  found =
      ap (λ (r : Answer Unit). find (λ t. t.lookup_key == key) (tokens_of db r)) (sym e)
      ∙ find-update_where (λ t. t.lookup_key == key) (λ x. x.id == t.id) revoke db.refresh_tokens t
          (λ x. refl) found
      ∙ ap (λ b. some (if b then revoke t else t)) (beq_refl t.id);
  holds = refl;
}

pub revoke_user_tokens-IsSpent :
    (id : Uuid) (key : String) (db db' : Db) {u : Unit}
    → IsOf id key db
    → revoke_user_tokens id db ≡ answered u db'
    → IsSpent key db'
unfolding revoke_user_tokens
revoke_user_tokens-IsSpent id key db db' h e =
    let hit = λ (t : RefreshTokenRow). t.user_id == id && not t.revoked in
    record {
      row = if hit h.row then revoke h.row else h.row;
      found =
          ap (λ (r : Answer Unit). find (λ t. t.lookup_key == key) (tokens_of db r)) (sym e)
          ∙ find-update_where (λ t. t.lookup_key == key) hit revoke db.refresh_tokens h.row
              (λ x. refl) h.found;
      holds = ground (arith, h.holds);
    }

module _ {S : Type 0} (env : Env S) (config : Config) where
  -- A revoked token is refused, or the database fails.
  pub spent_rejected :
      (raw : String) (w : World S)
      → IsSpent (compute_lookup_key env config raw) w.db
      → ((rotate_refresh_token env config raw w).0 ≡ err refresh_token_invalid)
        ⊎ ((e : SqlxError) × ((rotate_refresh_token env config raw w).0 ≡ err (database e)))
  unfolding rotate_refresh_token reject_token revoke_all_user_tokens revoke_user_tokens
      select_refresh_token ◌>>=◌ map_err query
  spent_rejected raw w h = elim (Option-cases (env.sql_fault w.tick)) [
    | inr (e, failed) ↦ inr (e, simp failed)
    | inl clear ↦ elim (Option-cases (env.sql_fault (suc (suc w.tick)))) [
      | inr (e, failed) ↦ inr (e, simp (clear, h.found, h.holds, failed))
      | inl clear' ↦ inl (simp (clear, h.found, h.holds, clear'))
    ]
  ]

  -- What the row of a rotated token was, and what the rotation left behind. The clock is read in the
  -- call after the `SELECT`.
  pub record IsRotated (raw : String) (id : Uuid) (w : World S) (after : Db) : Type 0 where
    pub row : RefreshTokenRow
    pub found :
        find (λ t. t.lookup_key == compute_lookup_key env config raw) w.db.refresh_tokens ≡ some row
    pub unrevoked : row.revoked ≡ false
    pub unexpired : ltb row.expires_at (env.now (suc w.tick)) ≡ false
    pub verified : env.argon2.verify raw row.token_hash ≡ true
    pub owner : row.user_id ≡ id
    pub now_spent : IsSpent (compute_lookup_key env config raw) after

  rotate_live_token-spends :
      (raw : String) (t : RefreshTokenRow) (w : World S) (r : String × Uuid) (w' : World S)
      → find (λ t. t.lookup_key == compute_lookup_key env config raw) w.db.refresh_tokens ≡ some t
      → Returns (rotate_live_token env config raw t) w r w'
      → (env.argon2.verify raw t.token_hash ≡ true)
        × (t.user_id ≡ r.1)
        × IsSpent (compute_lookup_key env config raw) w'.db
  unfolding rotate_live_token
  rotate_live_token-spends raw t w r w' found h =
      let key : String = compute_lookup_key env config raw in
      after_raise_if w r w' _ _ _ h λ parsed h. after_raise_if w r w' _ _ _ h λ verified h.
        after_query w r w' _ env _ _ h λ _ w₁ revoked h. after w₁ r w' _ _ h λ new_raw w₂ created h.
          (
            ground arith,
            ap (λ (x : String × Uuid). x.1) (pure-Returns _ w₂ r w' h).0,
            subst (λ (x : World S). IsSpent key x.db) (pure-Returns _ w₂ r w' h).1
                (Keeps-Returns _ w₁ new_raw w₂
                  (create_refresh_token-Keeps (IsSpent-statements key) env config t.user_id) created
                  (revoke_token-IsSpent key t w.db w₁.db found revoked)),
          )

  -- A rotation that returns was given the raw token of a row that was not revoked, that
  -- had not expired by the clock after the `SELECT`, and whose hash it verifies; it returns the
  -- row's user and leaves the row revoked.
  pub rotate_refresh_token-IsRotated :
      (raw : String) (w : World S) (r : String × Uuid) (w' : World S)
      → Returns (rotate_refresh_token env config raw) w r w'
      → IsRotated raw r.1 w w'.db
  unfolding rotate_refresh_token select_refresh_token reject_token
  rotate_refresh_token-IsRotated raw w r w' h = after w r w' _ _ h λ o w₁ answers h.
      let ran = map_err-Returns {A = Option RefreshTokenRow} database _ w o w₁ answers in
      let selected = query-Returns env _ w o w₁ ran in
      after_ok_or w₁ r w' o _ _ h λ t found h. after_sample w₁ r w' _ _ h λ h.
        in_branch (record w₁ { tick = suc w₁.tick }) r w'
          (t.revoked || ltb t.expires_at (env.now w₁.tick)) _ _ h
          (λ _ h. after _ r w' _ _ h λ _ w₂ _ h. not_raise w₂ r w' _ h)
          λ live h.
            let key : String = compute_lookup_key env config raw in
            let row : find (λ t. t.lookup_key == key) w.db.refresh_tokens ≡ some t = cc in
            let row₁ : find (λ t. t.lookup_key == key) w₁.db.refresh_tokens ≡ some t = cc in
            let (verified, owner, spent) =
              rotate_live_token-spends raw t (record w₁ { tick = suc w₁.tick }) r w' row₁ h in
            record {
              row = t;
              found = row;
              unrevoked = ground arith;
              unexpired = rw (query-ticks env _ w o w₁ ran) (ground arith);
              verified = verified;
              owner = owner;
              now_spent = spent;
            }

  -- Revoking every token of a user spends each of them.
  pub revoke_all_user_tokens-IsSpent :
      (id : Uuid) (w w' : World S) (u : Unit) (key : String)
      → Returns (revoke_all_user_tokens env config id) w u w'
      → IsOf id key w.db
      → IsSpent key w'.db
  unfolding revoke_all_user_tokens
  revoke_all_user_tokens-IsSpent id w w' u key h owned =
      revoke_user_tokens-IsSpent id key w.db w'.db owned
        (query-Returns env _ w u w' (map_err-Returns _ _ w u w' h))
