-- ===== src/Tokens.antt =====
-- services/token.rs: `TokenService`, JWT access tokens and refresh tokens kept by their hashes.
pub mod Keeps
pub mod Spent
pub mod Rotation
pub mod Reuse
pub mod Refused
pub mod Usable
pub mod Creation
pub mod Registry
pub mod Steps
pub mod Access
pub mod Fails
use yaima.Base.{
  ℕ, ◌+◌, ◌-◌, ◌/◌, ◌%◌, ◌^◌, String, Bool, true, false, not, ◌||◌, Option, none, some, ltb,
  if◌then◌else◌,
}
use yaima.Config.{Config}
use yaima.Models.{Uuid, OffsetDateTime, Role, AuthMethod, Claims}
use yaima.Errors.{AppError, database, refresh_token_invalid, token_expired, token_invalid}
use yaima.External.{Env, ℤ, pos, negsuc, Decoded, decoded, expired_signature, other_kind}
use yaima.Db.{
  RefreshTokenRow, insert_refresh_token, select_refresh_token, revoke_token, revoke_user_tokens,
}
use yaima.Program.{
  Action, pure, raise, panic, ok_or, expect, sample, raise_if, ◌>>=◌, ◌>>◌, map_err, query,
}

-- `u64::cast_signed`
abbrev pub cast_signed : ℕ → ℤ
cast_signed n = if ltb n (2 ^ 63) then pos n else negsuc (2 ^ 64 - 1 - n)

abbrev pub nanos : ℕ
nanos = 1_000_000_000

module _ {S : Type 0} (env : Env S) where
  -- `unix_now`
  abbrev pub unix_now : ℕ → ℕ
  unix_now n = env.now n / nanos

  unfoldable pub hash_refresh_token : String → Action S AppError String
  hash_refresh_token raw = do salt ← sample env.salt; expect (env.argon2.hash raw salt)

  unfoldable pub generate_opaque_token : Action S AppError String
  generate_opaque_token = do
    filled ← sample env.random_bytes
    bytes ← expect filled
    pure (env.hex_encode bytes)

  abbrev pub validated : Decoded → Action S AppError Claims
  validated (decoded claims) = pure claims
  validated expired_signature = raise token_expired
  validated other_kind = raise token_invalid

  module _ (config : Config) where
    unfoldable pub generate_access_token :
        Uuid → String → String → Role → AuthMethod → Action S AppError String
    generate_access_token user_id email display_name role auth_method = do
      now ← sample unix_now
      ok_or
          (env.jwt.encode config.jwt_secret (record {
            sub = user_id;
            iat = now;
            exp = (now + config.access_token_expiry_secs) % 2 ^ 64;
            email = email;
            display_name = display_name;
            role = role;
            auth_method = auth_method;
          }))
          token_invalid

    unfoldable pub validate_access_token : String → Action S AppError Claims
    validate_access_token token = do
      now ← sample unix_now
      validated (env.jwt.decode now config.jwt_secret token)

    abbrev pub compute_lookup_key : String → String
    compute_lookup_key raw = env.hex_encode (env.hmac_sign config.jwt_secret raw)

    unfoldable pub create_refresh_token : Uuid → Action S AppError String
    create_refresh_token user_id = do
      raw ← generate_opaque_token
      token_hash ← hash_refresh_token raw
      now ← sample env.now
      expires_at ← expect (env.add_seconds now (cast_signed config.refresh_token_expiry_secs))
      id ← sample env.uuid
      map_err database (
          query env λ _. insert_refresh_token (record {
            id = id;
            user_id = user_id;
            token_hash = token_hash;
            lookup_key = compute_lookup_key raw;
            expires_at = expires_at;
            revoked = false;
          }))
      pure raw

    unfoldable pub revoke_all_user_tokens : Uuid → Action S AppError Unit
    revoke_all_user_tokens user_id = map_err database (query env λ _. revoke_user_tokens user_id)

    -- `rotate_refresh_token` once the row is found usable: the hash is checked, the row revoked,
    -- and a new token issued.
    unfoldable pub rotate_live_token : String → RefreshTokenRow → Action S AppError (String × Uuid)
    rotate_live_token raw_token t = do
      raise_if (not (env.argon2.is_hash t.token_hash)) refresh_token_invalid
      raise_if (not (env.argon2.verify raw_token t.token_hash)) refresh_token_invalid
      map_err database (query env λ _. revoke_token t.id)
      new_raw ← create_refresh_token t.user_id
      pure (new_raw, t.user_id)

    -- A token that is revoked or has expired: every token of its user is revoked.
    unfoldable pub reject_token : RefreshTokenRow → Action S AppError (String × Uuid)
    reject_token t = do revoke_all_user_tokens t.user_id; raise refresh_token_invalid

    unfoldable pub rotate_refresh_token : String → Action S AppError (String × Uuid)
    rotate_refresh_token raw_token = do
      found ← map_err database (query env λ _. select_refresh_token (compute_lookup_key raw_token))
      t ← ok_or found refresh_token_invalid
      now ← sample env.now
      if t.revoked || ltb t.expires_at now then reject_token t else rotate_live_token raw_token t
