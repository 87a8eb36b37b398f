-- ===== src/Tests/Overlap.antt =====
-- Rotations that overlap, in the sample world after a registration.
use yaima.Base.{suc, String, ◌≡◌, refl, some, find, ◌==◌, string_eq}
use yaima.Program.{ok, ◌>>=◌, map_err, query, transaction}
use yaima.Valkey.{Store}
use yaima.Sample.{env, config, dotted}
use yaima.Db.{
  RefreshTokenRow, insert_user, insert_local_credential, insert_refresh_token, select_refresh_token,
  revoke_token,
}
use yaima.Users.{create, hash_password, insert_account}
use yaima.Tokens.{
  generate_access_token, create_refresh_token, generate_opaque_token, hash_refresh_token,
  compute_lookup_key,
}
use yaima.Tokens.Spent.{IsSpent}
use yaima.Tokens.Rotation.{rotate_refresh_token-IsRotated}
use yaima.Tokens.Steps.{Phase, selecting, purging, updating, creating, finished, advance}
use yaima.Auth.{register, issue_tokens}
use yaima.Routes.Overlap.{Overlap, Run, begins, then_left, then_right, move_left, move_right}
use yaima.Routes.Overlap.Spent.{IsRefused, overlapped-IsRefused}
use yaima.Routes.Overlap.Race.{IsUsable, both_selecting, turns, overlap_race}
use yaima.Tests.{registered, welcome, renewed, rotated, rotation_runs}
use yaima.Tests.Sessions.{first_row}

abbrev raced : Overlap Store
raced = turns env config welcome.refresh_token (
    turns env config welcome.refresh_token (
      turns env config welcome.refresh_token
        (both_selecting env config welcome.refresh_token registered)))

abbrev token_of : Phase → String
token_of selecting = ""
token_of (purging t) = ""
token_of (updating t) = ""
token_of (creating t) = ""
token_of (finished (ok (token, id))) = token
token_of (finished r) = ""

-- Both of them return a token.
both_return :
    (raced.left ≡ finished (ok (token_of raced.left, 101)))
    × (raced.right ≡ finished (ok (token_of raced.right, 101)))
unfolding dotted register issue_tokens create hash_password insert_account insert_user
    insert_local_credential insert_refresh_token generate_access_token create_refresh_token
    generate_opaque_token hash_refresh_token ◌>>=◌ map_err query transaction advance
    select_refresh_token revoke_token
both_return = (refl, refl)

abbrev row : RefreshTokenRow
row = first_row registered.db.refresh_tokens

row_found :
    find
      (λ t. t.lookup_key == compute_lookup_key env config welcome.refresh_token)
      registered.db.refresh_tokens
    ≡ some row
unfolding dotted register issue_tokens create hash_password insert_account insert_user
    insert_local_credential insert_refresh_token generate_access_token create_refresh_token
    generate_opaque_token hash_refresh_token ◌>>=◌ map_err query transaction
row_found = refl

row-IsUsable :
    IsUsable env config welcome.refresh_token row (env.now (suc registered.tick))
    × IsUsable env config welcome.refresh_token row (env.now (suc (suc (suc registered.tick))))
unfolding dotted register issue_tokens create hash_password insert_account insert_user
    insert_local_credential insert_refresh_token generate_access_token create_refresh_token
    generate_opaque_token hash_refresh_token ◌>>=◌ map_err query transaction
row-IsUsable = (
  record { unrevoked = refl; unexpired = refl; parses = refl; verifies = refl },
  record { unrevoked = refl; unexpired = refl; parses = refl; verifies = refl },
)

overlap_race_example :
    (p : Overlap Store) × Run env config welcome.refresh_token welcome.refresh_token
      (both_selecting env config welcome.refresh_token registered)
      2
      p
    × (p.left ≡ creating row)
    × (p.right ≡ creating row)
overlap_race_example =
    overlap_race env config welcome.refresh_token row registered row_found row-IsUsable.0
      row-IsUsable.1 (λ n. refl)

abbrev late : Overlap Store
late = record { left = selecting; right = selecting; world = rotated.1 }

late-Run : Run env config welcome.refresh_token renewed.refresh_token late 1 (
    move_right env config welcome.refresh_token renewed.refresh_token
      (move_left env config welcome.refresh_token renewed.refresh_token late))
late-Run = then_right (then_left begins)

late-IsSpent : IsSpent (compute_lookup_key env config welcome.refresh_token) rotated.1.db
late-IsSpent =
    (rotate_refresh_token-IsRotated env config welcome.refresh_token registered
      (renewed.refresh_token, 101) rotated.1 rotation_runs).now_spent

overlapped-IsRefused_example :
    IsRefused
      (move_right env config welcome.refresh_token renewed.refresh_token
        (move_left env config welcome.refresh_token renewed.refresh_token late)).left
overlapped-IsRefused_example =
    overlapped-IsRefused env config welcome.refresh_token renewed.refresh_token late
      (move_right env config welcome.refresh_token renewed.refresh_token
        (move_left env config welcome.refresh_token renewed.refresh_token late))
      1 late-Run refl late-IsSpent
