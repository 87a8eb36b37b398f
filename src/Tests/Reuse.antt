-- ===== src/Tests/Reuse.antt =====
-- The reuse of a refresh token after its rotation, in the sample world.
use yaima.Base.{suc, Option, none, some, List, [], ◌∷◌, ◌≡◌, refl}
use yaima.Errors.{refresh_token_invalid}
use yaima.Db.{
  RefreshTokenRow, insert_user, insert_local_credential, insert_refresh_token, select_refresh_token,
  select_user, select_local_credential, revoke_token,
}
use yaima.Program.Inversion.{Returns}
use yaima.Program.{World, err, ◌>>=◌, map_err, query, transaction}
use yaima.Sample.{env, config, dotted}
use yaima.Valkey.{Store}
use yaima.Users.{create, hash_password, insert_account, find_by_id, find_local_credential}
use yaima.Tokens.{
  cast_signed, compute_lookup_key, generate_access_token, create_refresh_token,
  generate_opaque_token, hash_refresh_token, rotate_refresh_token, rotate_live_token,
}
use yaima.Tokens.Spent.{IsSpent, IsOf}
use yaima.Tokens.Reuse.{IsStale, reuse_revokes_all}
use yaima.Auth.{register, issue_tokens, refresh, complete_refresh}
use yaima.Tokens.Usable.{IsRotatable, rotate_refresh_token-Returns}
use yaima.Tokens.Refused.{IsForeign, unknown, foreign_refused}
use yaima.Tests.{registered, welcome, refreshed, renewed}
use yaima.Tests.Sessions.{no_row, first_row}

abbrev second_row : List RefreshTokenRow → RefreshTokenRow
second_row [] = no_row
second_row (t ∷ ts) = first_row ts

stale : IsStale env config welcome.refresh_token refreshed.1
unfolding dotted register issue_tokens create hash_password insert_account insert_user
    insert_local_credential insert_refresh_token generate_access_token create_refresh_token
    generate_opaque_token hash_refresh_token ◌>>=◌ map_err query transaction refresh
    complete_refresh rotate_refresh_token rotate_live_token find_by_id find_local_credential
    select_refresh_token select_user select_local_credential revoke_token
stale = record { row = first_row refreshed.1.db.refresh_tokens; found = refl; stale = refl }

renewed-IsOf :
    IsOf
      (first_row refreshed.1.db.refresh_tokens).user_id
      (compute_lookup_key env config renewed.refresh_token)
      refreshed.1.db
unfolding dotted register issue_tokens create hash_password insert_account insert_user
    insert_local_credential insert_refresh_token generate_access_token create_refresh_token
    generate_opaque_token hash_refresh_token ◌>>=◌ map_err query transaction refresh
    complete_refresh rotate_refresh_token rotate_live_token find_by_id find_local_credential
    select_refresh_token select_user select_local_credential revoke_token
renewed-IsOf = record { row = second_row refreshed.1.db.refresh_tokens; found = refl; holds = refl }

reuse_revokes_all_example :
    ((rotate_refresh_token env config welcome.refresh_token refreshed.1).0
      ≡ err refresh_token_invalid)
    × IsSpent
        (compute_lookup_key env config renewed.refresh_token)
        (rotate_refresh_token env config welcome.refresh_token refreshed.1).1.db
unfolding stale
reuse_revokes_all_example =
    reuse_revokes_all env config welcome.refresh_token renewed.refresh_token refreshed.1 stale
      (λ n. refl) renewed-IsOf

unknown_token : IsForeign env config "no token" registered
unfolding dotted register issue_tokens create hash_password insert_account insert_user
    insert_local_credential insert_refresh_token generate_access_token create_refresh_token
    generate_opaque_token hash_refresh_token ◌>>=◌ map_err query transaction
unknown_token = unknown refl

foreign_refused_example :
    ((rotate_refresh_token env config "no token" registered).0 ≡ err refresh_token_invalid)
    × ((rotate_refresh_token env config "no token" registered).1.db ≡ registered.db)
foreign_refused_example = foreign_refused env config "no token" registered refl unknown_token

abbrev given : {A : Type 0} → A → Option A → A
given d none = d
given d (some a) = a

live_token : IsRotatable env config welcome.refresh_token registered
unfolding dotted register issue_tokens create hash_password insert_account insert_user
    insert_local_credential insert_refresh_token generate_access_token create_refresh_token
    generate_opaque_token hash_refresh_token ◌>>=◌ map_err query transaction
live_token =
    let bytes = suc (suc (suc registered.tick)) ∷ [] in
    let salt = env.salt (suc (suc (suc (suc registered.tick)))) in
    record {
      row = first_row registered.db.refresh_tokens;
      bytes = bytes;
      hash = given "" (env.argon2.hash (env.hex_encode bytes) salt);
      expires_at = given 0 (
          env.add_seconds (env.now (suc (suc (suc (suc (suc registered.tick))))))
            (cast_signed config.refresh_token_expiry_secs));
      answers = λ n. refl;
      found = refl;
      live = refl;
      parsed = refl;
      verified = refl;
      owner = refl;
      filled = refl;
      hashed = refl;
      dated = refl;
      new_id = refl;
      new_hash = refl;
      new_key = refl;
    }

rotate_refresh_token-Returns_example :
    (w' : World Store) × Returns
      (rotate_refresh_token env config welcome.refresh_token)
      registered
      (env.hex_encode live_token.bytes, live_token.row.user_id)
      w'
rotate_refresh_token-Returns_example =
    rotate_refresh_token-Returns env config welcome.refresh_token registered live_token
