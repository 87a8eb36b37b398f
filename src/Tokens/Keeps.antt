-- ===== src/Tokens/Keeps.antt =====
-- The operations of services/token.rs keep what the statements keep.
use yaima.Base.{String}
use yaima.Config.{Config}
use yaima.Models.{Uuid, Role, AuthMethod}
use yaima.External.{Env, Decoded, decoded, expired_signature, other_kind}
use yaima.Db.{RefreshTokenRow}
use yaima.Db.Statements.{Statements, statement_rules}
use yaima.Db.{Db}
use yaima.Program.Keeps.{Keeps, pure-Keeps, raise-Keeps, keeps_rules}
use yaima.Tokens.{
  hash_refresh_token, generate_opaque_token, validated, generate_access_token,
  validate_access_token, create_refresh_token, revoke_all_user_tokens, rotate_live_token,
  reject_token, rotate_refresh_token,
}

module _ {P : Db → Type 0} (kept : Statements P) {S : Type 0} (env : Env S) where
  hash_refresh_token-Keeps : (raw : String) → Keeps P (hash_refresh_token env raw)
  unfolding hash_refresh_token
  hash_refresh_token-Keeps raw = search keeps_rules

  pub generate_opaque_token-Keeps : Keeps P (generate_opaque_token env)
  unfolding generate_opaque_token
  generate_opaque_token-Keeps = search keeps_rules

  validated-Keeps : (d : Decoded) → Keeps P (validated env d)
  validated-Keeps (decoded claims) = pure-Keeps claims
  validated-Keeps expired_signature = raise-Keeps _
  validated-Keeps other_kind = raise-Keeps _

  module _ (config : Config) where
    pub generate_access_token-Keeps :
        (id : Uuid) (email name : String) (role : Role) (m : AuthMethod)
        → Keeps P (generate_access_token env config id email name role m)
    unfolding generate_access_token
    generate_access_token-Keeps id email name role m = search keeps_rules

    pub validate_access_token-Keeps :
        (token : String) → Keeps P (validate_access_token env config token)
    unfolding validate_access_token
    validate_access_token-Keeps token = search (keeps_rules, validated-Keeps)

    pub create_refresh_token-Keeps : (id : Uuid) → Keeps P (create_refresh_token env config id)
    unfolding create_refresh_token
    create_refresh_token-Keeps id =
        search (keeps_rules, statement_rules, generate_opaque_token-Keeps, hash_refresh_token-Keeps)
          depth 10

    pub revoke_all_user_tokens-Keeps : (id : Uuid) → Keeps P (revoke_all_user_tokens env config id)
    unfolding revoke_all_user_tokens
    revoke_all_user_tokens-Keeps id = search (keeps_rules, statement_rules)

    rotate_live_token-Keeps :
        (raw : String) (t : RefreshTokenRow) → Keeps P (rotate_live_token env config raw t)
    unfolding rotate_live_token
    rotate_live_token-Keeps raw t =
        search (keeps_rules, statement_rules, create_refresh_token-Keeps) depth 9

    reject_token-Keeps : (t : RefreshTokenRow) → Keeps P (reject_token env config t)
    unfolding reject_token
    reject_token-Keeps t = search (keeps_rules, revoke_all_user_tokens-Keeps)

    pub rotate_refresh_token-Keeps : (raw : String) → Keeps P (rotate_refresh_token env config raw)
    unfolding rotate_refresh_token
    rotate_refresh_token-Keeps raw =
        search (keeps_rules, statement_rules, reject_token-Keeps, rotate_live_token-Keeps) depth 8

pub ruleset token_rules = (
  generate_opaque_token-Keeps, generate_access_token-Keeps, validate_access_token-Keeps,
  create_refresh_token-Keeps, revoke_all_user_tokens-Keeps, rotate_refresh_token-Keeps,
)
