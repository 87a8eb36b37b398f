-- ===== src/RateLimit/Window.antt =====
-- rate_limit.rs `check` over the requests of one window: each is judged on its number among those
-- with its bucket key.
pub mod Counting
pub mod Judged
use mathlib.Core.Path.{subst}
use native.Mathlib.Nat.{mod-lt, mod-add-div'}
use yaima.Base.{
  ℕ, zero, suc, ◌+◌, ◌*◌, ◌/◌, ◌%◌, ◌^◌, ◌≤◌, ◌<◌, String, ◌≡◌, ◌≢◌, refl, ap, sym, ◌∙◌, Bool, true,
  false, Option, none, some, List, [], ◌∷◌, ◌==◌, string_eq, nat_eq, arith, beq_refl, if◌then◌else◌,
  Bool-cases, inl, inr, ltb, length,
}
use text.Mathlib.TextEquality.{eq_iff}
use yaima.External.{Env, pos}
use yaima.Valkey.Counters.{Entry, IsCounter, count_at, bumped}
use yaima.Program.{World, Outcome, ok, ◌>>=◌}
use yaima.Tokens.{unix_now, cast_signed, nanos}
use yaima.RateLimit.{
  RateLimiter, Verdict, judged, bucket_key, incr_command, expire_command, connect, set_expiry, incr,
  check_at, check,
}

-- The requests, by address and endpoint, in the order of their checks.
abbrev pub Requests : Type 0
Requests = List (String × String)

-- How many of them count on a key in a window.
abbrev pub requests_on : String → ℕ → Requests → ℕ
requests_on key window [] = 0
requests_on key window ((ip, endpoint) ∷ rest) =
    let n = requests_on key window rest in if bucket_key endpoint ip window == key then suc n else n

-- The counter of a key after `n` requests of a window that ends at `close`.
abbrev pub Counts : ℕ → ℕ → Entry → Type 0
Counts close zero e = e ≡ none
Counts close (suc n) e = (dies : ℕ) × (e ≡ some (suc n, some dies)) × (close ≤ dies)

pub count_at-Counts :
    (close now n : ℕ) (e : Entry) → now < close → Counts close n e → count_at now e ≡ n
count_at-Counts close now zero e early h = rw h
count_at-Counts close now (suc n) e early (dies, is, late) =
    rw is (let lives : ltb now dies ≡ true = ground arith in rw lives)

module _ {S : Type 0} (env : Env S) (limiter : RateLimiter) where
  -- The world after the checks of some requests, one after the other.
  unfoldable pub check_all : Requests → World S → World S
  check_all [] w = w
  check_all ((ip, endpoint) ∷ rest) w =
      check_all rest (check env {E = Unit} limiter ip endpoint w).1

  -- No call of Valkey fails.
  pub record IsSmooth : Type 0 where
    pub pool_answers : (n : ℕ) → env.pool_fault n ≡ none
    pub commands_answer : (n : ℕ) → env.command_fault n ≡ none

  -- The clock stays in one window for the calls up to `last`.
  abbrev pub InWindow : ℕ → ℕ → Type 0
  InWindow window last = (n : ℕ) → n < last → unix_now env n / limiter.window_secs ≡ window

  abbrev pub close_of : ℕ → ℕ
  close_of window = (window + 1) * limiter.window_secs

  pub in_window_lem :
      (window now : ℕ)
      → 0 < limiter.window_secs
      → now / limiter.window_secs ≡ window
      → (now < close_of window) × (close_of window ≤ now + limiter.window_secs * 2)
  in_window_lem window now positive at =
      let q = window * limiter.window_secs in
      let split : now % limiter.window_secs + q ≡ now =
        subst (λ x. now % limiter.window_secs + x * limiter.window_secs ≡ now) at
          (mod-add-div' now limiter.window_secs) in
      let small = mod-lt now positive in
      let close : close_of window ≡ q + limiter.window_secs = grind arith in
      (grind arith, grind arith)

  -- What one check leaves in Valkey, if no call fails.
  abbrev pub stored : String → ℕ → S → S
  stored key t s =
      let incremented = env.valkey.after_incr (unix_now env (suc t)) key s in
      if env.valkey.incr (unix_now env (suc t)) key s == 1
      then env.valkey.expire (unix_now env (suc (suc t))) key
          (cast_signed (limiter.window_secs * 2 % 2 ^ 64)) incremented
      else incremented

  abbrev pub ticked : String → ℕ → S → ℕ
  ticked key t s =
      if env.valkey.incr (unix_now env (suc t)) key s == 1 then suc (suc (suc t)) else suc (suc t)
