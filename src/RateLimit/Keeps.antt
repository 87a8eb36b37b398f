-- ===== src/RateLimit/Keeps.antt =====
-- The rate limiter leaves the database alone.
use yaima.Base.{ℕ, String, Option, none, some}
use yaima.External.{Env}
use yaima.Db.{Db}
use yaima.Program.{World}
use yaima.Program.Keeps.{Keeps, keeps_rules}
use yaima.RateLimit.{
  RateLimiter, pool_ready, run_unless, connect, incr_command, expire_command, set_expiry, incr,
  check_at, check,
}

module _ {S : Type 0} (P : Db → Type 0) (env : Env S) where
  run_unless-Keeps :
      {A : Type 0} (fault : Option String) (f : S → A × S) (w : World S)
      → P w.db
      → P (run_unless env fault f w).1.db
  run_unless-Keeps none f w h = h
  run_unless-Keeps (some e) f w h = h

module _ {S : Type 0} {P : Db → Type 0} (env : Env S) where
  connect-Keeps : Keeps P (connect env)
  unfolding connect
  connect-Keeps = record { at = λ w h. go (env.pool_fault w.tick) w h }
    where
      go : (fault : Option String) (w : World S) → P w.db → P (pool_ready env fault w).1.db
      go none w h = h
      go (some e) w h = h

  incr_command-Keeps : (k : String) → Keeps P (incr_command env k)
  unfolding incr_command
  incr_command-Keeps k = record {
    at = λ w h. run_unless-Keeps P env (env.command_fault w.tick) _ w h;
  }

  expire_command-Keeps : (k : String) (ttl : ℕ) → Keeps P (expire_command env k ttl)
  unfolding expire_command
  expire_command-Keeps k ttl = record {
    at = λ w h. run_unless-Keeps P env (env.command_fault w.tick) _ w h;
  }

  set_expiry-Keeps : (l : RateLimiter) (k : String) (n : ℕ) → Keeps P (set_expiry env l k n)
  unfolding set_expiry
  set_expiry-Keeps l k n = search (keeps_rules, expire_command-Keeps)

  incr-Keeps : (l : RateLimiter) (k : String) → Keeps P (incr env l k)
  unfolding incr
  incr-Keeps l k = search (keeps_rules, connect-Keeps, incr_command-Keeps, set_expiry-Keeps)

  check_at-Keeps :
      {E : Type 0} (l : RateLimiter) (ip endpoint : String) (now : ℕ)
      → Keeps P (check_at env {E = E} l ip endpoint now)
  unfolding check_at
  check_at-Keeps l ip endpoint now = record { at = λ w h. (incr-Keeps l _).at w h }

  pub check-Keeps :
      {E : Type 0} (l : RateLimiter) (ip endpoint : String)
      → Keeps P (check env {E = E} l ip endpoint)
  unfolding check
  check-Keeps l ip endpoint = search (keeps_rules, check_at-Keeps)
