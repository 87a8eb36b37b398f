-- ===== src/Tokens/Usable.antt =====
-- services/token.rs `rotate_refresh_token` on a token that may be rotated: it returns.
use yaima.Base.{
  suc, String, ◌≡◌, ◌∙◌, refl, true, false, ◌||◌, none, some, ◌==◌, string_eq, nat_eq, find, ltb,
  List, ℕ, has_key, any-update_where, update_where,
}
use yaima.Config.{Config}
use yaima.Models.{OffsetDateTime}
use yaima.External.{Env}
use yaima.Db.{RefreshTokenRow, revoke, select_refresh_token, revoke_token, insert_refresh_token}
use yaima.Program.{World, ◌>>=◌, map_err, query}
use yaima.Program.Inversion.{Returns}
use yaima.Tokens.{
  cast_signed, compute_lookup_key, generate_opaque_token, hash_refresh_token, create_refresh_token,
  rotate_live_token, rotate_refresh_token,
}

module _ {S : Type 0} (env : Env S) (config : Config) where
  -- A call of `rotate_refresh_token` in which nothing fails: the text is the token of a live row of a
  -- user who is stored, and the token that is made next is new.
  pub record IsRotatable (raw : String) (w : World S) : Type 0 where
    pub row : RefreshTokenRow
    pub bytes : List ℕ
    pub hash : String
    pub expires_at : OffsetDateTime
    pub answers : (n : ℕ) → env.sql_fault n ≡ none
    pub found :
        find (λ t. t.lookup_key == compute_lookup_key env config raw) w.db.refresh_tokens ≡ some row
    pub live : (row.revoked || ltb row.expires_at (env.now (suc w.tick))) ≡ false
    pub parsed : env.argon2.is_hash row.token_hash ≡ true
    pub verified : env.argon2.verify raw row.token_hash ≡ true
    pub owner : has_key (λ u. u.id) row.user_id w.db.users ≡ true
    pub filled : env.random_bytes (suc (suc (suc w.tick))) ≡ some bytes
    pub hashed :
        env.argon2.hash (env.hex_encode bytes) (env.salt (suc (suc (suc (suc w.tick))))) ≡ some hash
    pub dated :
        env.add_seconds
          (env.now (suc (suc (suc (suc (suc w.tick))))))
          (cast_signed config.refresh_token_expiry_secs)
        ≡ some expires_at
    pub new_id :
        has_key
          (λ t. t.id)
          (env.uuid (suc (suc (suc (suc (suc (suc w.tick)))))))
          w.db.refresh_tokens
        ≡ false
    pub new_hash : has_key (λ t. t.token_hash) hash w.db.refresh_tokens ≡ false
    pub new_key :
        has_key
          (λ t. t.lookup_key)
          (compute_lookup_key env config (env.hex_encode bytes))
          w.db.refresh_tokens
        ≡ false

  -- A rotation of a live token of a stored user, which its row's hash verifies, returns a new token
  -- for that user, if no call fails and the new row is new.
  pub rotate_refresh_token-Returns :
      (raw : String) (w : World S) (h : IsRotatable raw w)
      → (w' : World S) × Returns
          (rotate_refresh_token env config raw)
          w
          (env.hex_encode h.bytes, h.row.user_id)
          w'
  unfolding rotate_refresh_token rotate_live_token create_refresh_token generate_opaque_token
      hash_refresh_token select_refresh_token revoke_token insert_refresh_token ◌>>=◌ map_err query
  rotate_refresh_token-Returns raw w h =
      let rows = update_where (λ t. t.id == h.row.id) revoke w.db.refresh_tokens in
      let new_raw = env.hex_encode h.bytes in
      let id = env.uuid (suc (suc (suc (suc (suc (suc w.tick)))))) in
      let new_id : has_key (λ t. t.id) id rows ≡ false =
        any-update_where (λ t. t.id == id) _ revoke w.db.refresh_tokens (λ t. refl) ∙ h.new_id in
      let new_hash : has_key (λ t. t.token_hash) h.hash rows ≡ false =
        any-update_where (λ t. t.token_hash == h.hash) _ revoke w.db.refresh_tokens (λ t. refl)
        ∙ h.new_hash in
      let new_key : has_key (λ t. t.lookup_key) (compute_lookup_key env config new_raw) rows
          ≡ false =
        any-update_where (λ t. t.lookup_key == compute_lookup_key env config new_raw) _ revoke
          w.db.refresh_tokens (λ t. refl)
        ∙ h.new_key in
      (
        (rotate_refresh_token env config raw w).1,
        simp (
          h.answers, h.found, h.live, h.parsed, h.verified, h.filled, h.hashed, h.dated, new_id,
          new_hash, new_key, h.owner,
        ),
      )
