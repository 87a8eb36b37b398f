-- ===== src/Tokens/Refused.antt =====
-- services/token.rs `rotate_refresh_token` on a text that is no token, or not the token of its row.
use yaima.Base.{
  suc, Bool-cases, String, ◌≡◌, ◌⊎◌, inl, inr, false, ◌||◌, Option, none, some, ◌==◌, string_eq,
  find, ltb,
}
use yaima.Config.{Config}
use yaima.Errors.{refresh_token_invalid}
use yaima.External.{Env}
use yaima.Db.{RefreshTokenRow, select_refresh_token}
use yaima.Program.{World, err, ◌>>=◌, map_err, query}
use yaima.Tokens.{compute_lookup_key, rotate_live_token, rotate_refresh_token}

module _ {S : Type 0} (env : Env S) (config : Config) where
  abbrev row_of : String → World S → Option RefreshTokenRow
  row_of raw w = find (λ t. t.lookup_key == compute_lookup_key env config raw) w.db.refresh_tokens

  -- No row has the lookup key; or the row that has it is live, and its hash does not parse or does
  -- not verify for the text.
  pub data IsForeign (raw : String) (w : World S) : Type 0 where
    unknown : row_of raw w ≡ none → IsForeign raw w
    unverified :
        (row : RefreshTokenRow)
        → row_of raw w ≡ some row
        → (row.revoked || ltb row.expires_at (env.now (suc w.tick))) ≡ false
        → (env.argon2.is_hash row.token_hash ≡ false)
          ⊎ (env.argon2.verify raw row.token_hash ≡ false)
        → IsForeign raw w

  -- A text that is no stored token, or that a live row's hash does not verify, is refused with
  -- `REFRESH_TOKEN_INVALID` and changes nothing in the database: it revokes no session; if the
  -- `SELECT` does not fail.
  pub foreign_refused :
      (raw : String) (w : World S)
      → env.sql_fault w.tick ≡ none
      → IsForeign raw w
      → ((rotate_refresh_token env config raw w).0 ≡ err refresh_token_invalid)
        × ((rotate_refresh_token env config raw w).1.db ≡ w.db)
  unfolding rotate_refresh_token rotate_live_token select_refresh_token ◌>>=◌ map_err query
  foreign_refused raw w clear (unknown absent) = (simp (clear, absent), simp (clear, absent))
  foreign_refused raw w clear (unverified row found live fails) = elim fails [
    | inl unparsed ↦ (simp (clear, found, live, unparsed), simp (clear, found, live, unparsed))
    | inr wrong ↦ elim (Bool-cases (env.argon2.is_hash row.token_hash)) [
      | inl parsed ↦
          (simp (clear, found, live, parsed, wrong), simp (clear, found, live, parsed, wrong))
      | inr unparsed ↦ (simp (clear, found, live, unparsed), simp (clear, found, live, unparsed))
    ]
  ]
