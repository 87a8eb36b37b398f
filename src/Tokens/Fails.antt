-- ===== src/Tokens/Fails.antt =====
-- The errors of the operations of services/token.rs.
use yaima.Base.{String}
use yaima.Config.{Config}
use yaima.Models.{Uuid, Role, AuthMethod}
use yaima.Errors.{
  SqlxError, AppError, database, refresh_token_invalid, token_expired, token_invalid,
}
use yaima.External.{Env, Decoded, decoded, expired_signature, other_kind}
use yaima.Db.{RefreshTokenRow}
use yaima.Program.Fails.{Fails, pure-Fails, raise-Fails, fails_rules}
use yaima.Tokens.{
  hash_refresh_token, generate_opaque_token, validated, generate_access_token,
  validate_access_token, create_refresh_token, revoke_all_user_tokens, rotate_live_token,
  reject_token, rotate_refresh_token,
}

module _ {Q : AppError → Type 0} {S : Type 0} (env : Env S) where
  hash_refresh_token-Fails : (raw : String) → Fails Q (hash_refresh_token env raw)
  unfolding hash_refresh_token
  hash_refresh_token-Fails raw = search fails_rules

  pub generate_opaque_token-Fails : Fails Q (generate_opaque_token env)
  unfolding generate_opaque_token
  generate_opaque_token-Fails = search fails_rules

  validated-Fails : (d : Decoded) → Q token_expired → Q token_invalid → Fails Q (validated env d)
  validated-Fails (decoded claims) old bad = pure-Fails claims
  validated-Fails expired_signature old bad = raise-Fails _ old
  validated-Fails other_kind old bad = raise-Fails _ bad

  module _ (config : Config) where
    pub generate_access_token-Fails :
        (id : Uuid) (email name : String) (role : Role) (m : AuthMethod)
        → Q token_invalid
        → Fails Q (generate_access_token env config id email name role m)
    unfolding generate_access_token
    generate_access_token-Fails id email name role m bad = search fails_rules

    pub validate_access_token-Fails :
        (token : String)
        → Q token_expired
        → Q token_invalid
        → Fails Q (validate_access_token env config token)
    unfolding validate_access_token
    validate_access_token-Fails token old bad = search (fails_rules, validated-Fails)

    module _ (db : (e : SqlxError) → Q (database e)) where
      pub create_refresh_token-Fails : (id : Uuid) → Fails Q (create_refresh_token env config id)
      unfolding create_refresh_token
      create_refresh_token-Fails id =
          search (fails_rules, generate_opaque_token-Fails, hash_refresh_token-Fails) depth 10

      pub revoke_all_user_tokens-Fails :
          (id : Uuid) → Fails Q (revoke_all_user_tokens env config id)
      unfolding revoke_all_user_tokens
      revoke_all_user_tokens-Fails id = search fails_rules

      module _ (bad : Q refresh_token_invalid) where
        rotate_live_token-Fails :
            (raw : String) (t : RefreshTokenRow) → Fails Q (rotate_live_token env config raw t)
        unfolding rotate_live_token
        rotate_live_token-Fails raw t = search (fails_rules, create_refresh_token-Fails) depth 9

        reject_token-Fails : (t : RefreshTokenRow) → Fails Q (reject_token env config t)
        unfolding reject_token
        reject_token-Fails t = search (fails_rules, revoke_all_user_tokens-Fails)

        pub rotate_refresh_token-Fails :
            (raw : String) → Fails Q (rotate_refresh_token env config raw)
        unfolding rotate_refresh_token
        rotate_refresh_token-Fails raw =
            search (fails_rules, reject_token-Fails, rotate_live_token-Fails) depth 8

pub ruleset token_fails = (
  generate_opaque_token-Fails, generate_access_token-Fails, validate_access_token-Fails,
  create_refresh_token-Fails, revoke_all_user_tokens-Fails, rotate_refresh_token-Fails,
)
