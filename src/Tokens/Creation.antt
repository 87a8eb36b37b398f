-- ===== src/Tokens/Creation.antt =====
-- services/token.rs `create_refresh_token`: the row that it inserts, and nothing else.
use yaima.Base.{String, ◌≡◌, refl, ap, sym, ◌∙◌}
use yaima.Config.{Config}
use yaima.Models.{Uuid}
use yaima.External.{Env}
use yaima.Db.{RefreshTokenRow, answered, insert_refresh_token}
use yaima.Program.{World}
use yaima.Program.Inversion.{
  Returns, pure-Returns, expect-Returns, after, after_query, after_expect, after_sample,
}
use yaima.Tokens.{
  compute_lookup_key, generate_opaque_token, hash_refresh_token, create_refresh_token,
}

module _ {S : Type 0} (env : Env S) where
  generate-same :
      (w : World S) (raw : String) (w' : World S)
      → Returns (generate_opaque_token env) w raw w'
      → w'.db ≡ w.db
  unfolding generate_opaque_token
  generate-same w raw w' h = after_sample w raw w' _ _ h λ h.
      after_expect _ raw w' _ _ h λ bytes _ h. ap (λ x. x.db) (sym (pure-Returns _ _ raw w' h).1)

  hash-same :
      (raw : String) (w : World S) (hash : String) (w' : World S)
      → Returns (hash_refresh_token env raw) w hash w'
      → w'.db ≡ w.db
  unfolding hash_refresh_token
  hash-same raw w hash w' h =
      after_sample w hash w' _ _ h λ h. ap (λ x. x.db) (sym (expect-Returns _ _ hash w' h).1)

  module _ (config : Config) where
    -- What a token that was created has left: one row, with its lookup key and its owner.
    pub create_refresh_token-inserts :
        (id : Uuid) (w : World S) (raw : String) (w' : World S)
        → Returns (create_refresh_token env config id) w raw w'
        → (t : RefreshTokenRow) × (t.lookup_key ≡ compute_lookup_key env config raw)
          × (t.user_id ≡ id)
          × (insert_refresh_token t w.db ≡ answered tt w'.db)
    unfolding create_refresh_token
    create_refresh_token-inserts id w raw w' h = after w raw w' _ _ h λ raw₁ w₁ first h.
        after w₁ raw w' _ _ h λ hash w₂ second h. after_sample w₂ raw w' _ _ h λ h.
          after_expect _ raw w' _ _ h λ expires_at _ h. after_sample _ raw w' _ _ h λ h.
            after_query _ raw w' _ env _ _ h λ u w₃ inserted h.
              let (is, left) = pure-Returns _ w₃ raw w' h in
              let same : w₂.db ≡ w.db =
                hash-same raw₁ w₁ hash w₂ second ∙ generate-same w raw₁ w₁ first in
              (
                _,
                ap (compute_lookup_key env config) is,
                refl,
                ap (insert_refresh_token _) (sym same)
                    ∙ inserted
                    ∙ ap (λ (x : World S). answered tt x.db) left,
              )
