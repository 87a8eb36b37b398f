-- ===== src/Tests/Accounts.antt =====
-- Accounts that are made and that are refused.
use yaima.Base.{has_key, true, false, string_eq, nat_eq, ◌≡◌, refl, List, [], ◌∷◌}
use yaima.Models.{User, LocalCredential}
use yaima.Errors.{AppError, database, email_taken}
use yaima.Program.{World, Outcome, ok, err, ◌>>=◌, map_err, query, transaction}
use yaima.Valkey.{Store}
use yaima.Sample.{env, value_or, dotted, start}
use yaima.Db.{
  insert_user, insert_local_credential, insert_refresh_token, unique_violation, new_user,
  new_credential,
}
use yaima.Db.Schema.{IsConsistent}
use yaima.Users.{create, hash_password, insert_account, map_constraint_err}
use yaima.Users.Conflicts.{IsSmooth, create_email_taken, create_name_taken}
use yaima.Tokens.{
  generate_access_token, create_refresh_token, generate_opaque_token, hash_refresh_token,
}
use yaima.Auth.{register, issue_tokens}
use yaima.Auth.Registration.{IsAccount, create-IsAccount, IsAllOrNothing, create_atomic}
use yaima.Routes
use yaima.Middleware.{Request, post}
use yaima.Tests.{registered}

abbrev no_account : User × LocalCredential
no_account = (new_user 0 0 "" "", new_credential 0 0 "" "")

abbrev made : Outcome AppError (User × LocalCredential) × World Store
made = create env "bob@example.com" "bob" "bob" "password1" registered

abbrev account : User × LocalCredential
account = value_or no_account made.0

create_runs :
    create env "bob@example.com" "bob" "bob" "password1" registered
    ≡ (ok (account.0, account.1), made.1)
unfolding dotted register issue_tokens create hash_password insert_account insert_user
    insert_local_credential insert_refresh_token generate_access_token create_refresh_token
    generate_opaque_token hash_refresh_token ◌>>=◌ map_err query transaction
create_runs = refl

create-IsAccount_example :
    IsAccount env "bob@example.com" "bob" "bob" "password1" registered.db account.0 account.1
      made.1.db
create-IsAccount_example =
    create-IsAccount env "bob@example.com" "bob" "bob" "password1" registered account.0 account.1
      made.1 create_runs

abbrev again : World Store
again = (create env "alice@example.com" "ally" "ally" "password1" registered).1

again_runs :
    create env "alice@example.com" "ally" "ally" "password1" registered ≡ (err email_taken, again)
unfolding dotted register issue_tokens create hash_password insert_account insert_user
    insert_local_credential insert_refresh_token generate_access_token create_refresh_token
    generate_opaque_token hash_refresh_token ◌>>=◌ map_err query transaction map_constraint_err
again_runs = refl

create_atomic_example :
    IsAllOrNothing env "alice@example.com" "ally" "ally" "password1" registered.db email_taken
      again.db
create_atomic_example =
    create_atomic env "alice@example.com" "ally" "ally" "password1" registered email_taken again
      again_runs

smooth : IsSmooth env "password1" registered
unfolding dotted register issue_tokens create hash_password insert_account insert_user
    insert_local_credential insert_refresh_token generate_access_token create_refresh_token
    generate_opaque_token hash_refresh_token ◌>>=◌ map_err query transaction
smooth = record {
  hash = value_or "" (hash_password env "password1" registered).0;
  hashed = refl;
  answers = λ n. refl;
  fresh = refl;
}

alice_stored : has_key (λ (u : User). u.email) "alice@example.com" registered.db.users ≡ true
unfolding dotted register issue_tokens create hash_password insert_account insert_user
    insert_local_credential insert_refresh_token generate_access_token create_refresh_token
    generate_opaque_token hash_refresh_token ◌>>=◌ map_err query transaction
alice_stored = refl

alice_named : has_key (λ (u : User). u.display_name) "alice" registered.db.users ≡ true
unfolding dotted register issue_tokens create hash_password insert_account insert_user
    insert_local_credential insert_refresh_token generate_access_token create_refresh_token
    generate_opaque_token hash_refresh_token ◌>>=◌ map_err query transaction
alice_named = refl

other_address : has_key (λ (u : User). u.email) "alice@example.org" registered.db.users ≡ false
unfolding dotted register issue_tokens create hash_password insert_account insert_user
    insert_local_credential insert_refresh_token generate_access_token create_refresh_token
    generate_opaque_token hash_refresh_token ◌>>=◌ map_err query transaction
other_address = refl

create_email_taken_example :
    (create env "alice@example.com" "ally" "ally" "password1" registered).0 ≡ err email_taken
create_email_taken_example =
    create_email_taken env "alice@example.com" "ally" "ally" "password1" registered smooth
      alice_stored

-- Two addresses with one local part: the second cannot be registered.
create_name_taken_example :
    (create env "alice@example.org" "alice" "alice2" "password1" registered).0
    ≡ err (database (unique_violation "users_username_key"))
create_name_taken_example =
    create_name_taken env "alice@example.org" "alice" "alice2" "password1" registered smooth
      other_address alice_named

abbrev signup : Request
signup = record { method = post; path = "/auth/register"; headers = [] }

abbrev requests : List (Request × Routes.Endpoint)
requests =
    (
      signup,
      Routes.register
          (record { email = "alice@example.com"; username = "alice"; password = "hunter2secret" }),
    )
    ∷ (signup, Routes.login (record { email = "alice@example.com"; password = "hunter2secret" }))
    ∷ []

pub empty-IsConsistent : IsConsistent start.db
empty-IsConsistent = record {
  users_pkey = tt;
  users_email_key = tt;
  users_username_key = tt;
  credentials_pkey = tt;
  credentials_username_key = tt;
  credentials_owned = tt;
  oauth_pkey = tt;
  oauth_identity_key = tt;
  oauth_owned = tt;
  tokens_pkey = tt;
  tokens_hash_key = tt;
  tokens_lookup_key = tt;
  tokens_owned = tt;
}
