-- ===== src/Tests/Registry.antt =====
-- The registry of refresh tokens in the sample world.
use yaima.Base.{List, [], ◌∷◌, refl, String}
use yaima.Program.{◌>>=◌, map_err, query, transaction}
use yaima.Sample.{env, config, dotted}
use yaima.Db.{insert_user, insert_local_credential, insert_refresh_token}
use yaima.Users.{create, hash_password, insert_account}
use yaima.Tokens.{
  generate_access_token, create_refresh_token, generate_opaque_token, hash_refresh_token,
  compute_lookup_key,
}
use yaima.Tokens.Registry.{Evolves, registry, Rotates}
use yaima.Tokens.Registry.Operations.{rotate_refresh_token-Rotates}
use yaima.Auth.{register, issue_tokens}
use yaima.Db.Schema.{IsConsistent}
use yaima.Routes
use yaima.Routes.Refinement.{Grows, serve-Evolves}
use yaima.Middleware.{Request, post}
use yaima.Tests.{registered, welcome, renewed, rotated, rotation_runs}

pub registered-IsConsistent : IsConsistent registered.db
unfolding dotted register issue_tokens create hash_password insert_account insert_user
    insert_local_credential insert_refresh_token generate_access_token create_refresh_token
    generate_opaque_token hash_refresh_token ◌>>=◌ map_err query transaction
registered-IsConsistent = record {
  users_pkey = (refl, tt);
  users_email_key = (refl, tt);
  users_username_key = (refl, tt);
  credentials_pkey = (refl, tt);
  credentials_username_key = (refl, tt);
  credentials_owned = (refl, tt);
  oauth_pkey = tt;
  oauth_identity_key = tt;
  oauth_owned = tt;
  tokens_pkey = (refl, tt);
  tokens_hash_key = (refl, tt);
  tokens_lookup_key = (refl, tt);
  tokens_owned = (refl, tt);
}

abbrev refreshing : List (Request × Routes.Endpoint)
refreshing =
    (
      record { method = post; path = "/auth/refresh"; headers = [] },
      Routes.refresh (record { refresh_token = welcome.refresh_token }),
    )
    ∷ []

serve-Evolves_example :
    let after = registry (Routes.serve env config refreshing registered).db in
    Evolves (registry registered.db) after
    × ((key : String) → Grows (registry registered.db key) (after key))
serve-Evolves_example = serve-Evolves env config refreshing registered registered-IsConsistent

rotate_refresh_token-Rotates_example :
    Rotates
      (compute_lookup_key env config welcome.refresh_token)
      (compute_lookup_key env config renewed.refresh_token)
      101
      (registry registered.db)
      (registry rotated.1.db)
rotate_refresh_token-Rotates_example =
    rotate_refresh_token-Rotates env config welcome.refresh_token registered
      (renewed.refresh_token, 101) rotated.1 registered-IsConsistent rotation_runs
