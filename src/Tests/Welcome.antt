-- ===== src/Tests/Welcome.antt =====
-- A login after the registration in the sample world.
use Prim.Native.String.{◌++◌}
use mathlib.Core.Path.{subst}
use text.Mathlib.Text.{starts_with}
use text.Mathlib.TextPositions.{starts_with-append}
use text.Mathlib.TextLemmas.{append_assoc}
use yaima.Base.{String, ◌≡◌, refl, true, some}
use yaima.Sample.{env, config, start, argon2}
use yaima.Auth.Welcome.{IsHasher, IsWelcome, register-IsWelcome}
use yaima.Tests.{registered, welcome, register_runs}
use yaima.Tests.Accounts.{empty-IsConsistent}

same_hash : (s t : String) → some s ≡ some t → s ≡ t
same_hash s t h = cc

own_prefix :
    (password salt : String) → starts_with (password ++ "$" ++ salt) (password ++ "$") ≡ true
own_prefix password salt =
    subst (λ h. starts_with h (password ++ "$") ≡ true) (append_assoc password "$" salt)
      (starts_with-append (password ++ "$") salt)

argon2-IsHasher : IsHasher argon2
argon2-IsHasher = record {
  hash_law = λ password salt hash made. (
    refl,
    subst (λ h. starts_with h (password ++ "$") ≡ true)
        (same_hash (password ++ "$" ++ salt) hash made) (own_prefix password salt),
  );
}

register-IsWelcome_example :
    IsWelcome env config "alice@example.com" "hunter2secret" welcome registered
register-IsWelcome_example =
    register-IsWelcome env config argon2-IsHasher (λ n. refl) "alice@example.com" "alice"
      "hunter2secret" start welcome registered empty-IsConsistent register_runs
