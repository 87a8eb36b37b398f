-- ===== src/Tokens/Reuse.antt =====
-- services/token.rs `rotate_refresh_token` on a token that was revoked or has expired.
use mathlib.Core.Path.{subst}
use yaima.Base.{
  ℕ, suc, String, ◌≡◌, refl, ap, sym, true, ◌||◌, ◌&&◌, not, none, some, ◌==◌, string_eq, nat_eq,
  find, ltb, update_where,
}
use yaima.Config.{Config}
use yaima.Errors.{refresh_token_invalid}
use yaima.External.{Env}
use yaima.Db.{Db, RefreshTokenRow, revoke, select_refresh_token, revoke_user_tokens}
use yaima.Program.{World, err, ◌>>=◌, map_err, query}
use yaima.Tokens.{compute_lookup_key, revoke_all_user_tokens, reject_token, rotate_refresh_token}
use yaima.Tokens.Spent.{IsSpent, IsOf}
use yaima.Tokens.Rotation.{revoke_user_tokens-IsSpent}

module _ {S : Type 0} (env : Env S) (config : Config) where
  -- A stored token that is revoked, or has expired at the time of the test.
  pub record IsStale (raw : String) (w : World S) : Type 0 where
    pub row : RefreshTokenRow
    pub found :
        find (λ t. t.lookup_key == compute_lookup_key env config raw) w.db.refresh_tokens ≡ some row
    pub stale : (row.revoked || ltb row.expires_at (env.now (suc w.tick))) ≡ true

  abbrev revoked_all : RefreshTokenRow → Db → Db
  revoked_all t db = record db {
    refresh_tokens =
        update_where (λ x. x.user_id == t.user_id && not x.revoked) revoke db.refresh_tokens;
  }

  stale_run :
      (raw : String) (w : World S) (h : IsStale raw w)
      → ((n : ℕ) → env.sql_fault n ≡ none)
      → rotate_refresh_token env config raw w ≡ (
        err refresh_token_invalid,
        record w { db = revoked_all h.row w.db; tick = suc (suc (suc w.tick)) },
      )
  unfolding rotate_refresh_token reject_token revoke_all_user_tokens revoke_user_tokens
      select_refresh_token ◌>>=◌ map_err query
  stale_run raw w h clear = simp (clear w.tick, clear (suc (suc w.tick)), h.found, h.stale)

  -- A token that is revoked or has expired is refused with `REFRESH_TOKEN_INVALID`, and every
  -- refresh token of its user is revoked, if the database does not fail.
  pub reuse_revokes_all :
      (raw other : String) (w : World S) (h : IsStale raw w)
      → ((n : ℕ) → env.sql_fault n ≡ none)
      → IsOf h.row.user_id (compute_lookup_key env config other) w.db
      → ((rotate_refresh_token env config raw w).0 ≡ err refresh_token_invalid)
        × IsSpent (compute_lookup_key env config other) (rotate_refresh_token env config raw w).1.db
  unfolding revoke_user_tokens
  reuse_revokes_all raw other w h clear owned =
      let run = stale_run raw w h clear in
      (
        ap (λ r. r.0) run,
        subst (λ (db : Db). IsSpent (compute_lookup_key env config other) db)
            (sym (ap (λ r. r.1.db) run))
            (revoke_user_tokens-IsSpent h.row.user_id (compute_lookup_key env config other) w.db
              (revoked_all h.row w.db) owned refl),
      )
