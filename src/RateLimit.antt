-- ===== src/RateLimit.antt =====
-- rate_limit.rs: the fixed-window rate limiter, whose counters are kept in Valkey.
pub mod Keeps
pub mod Bounds
pub mod Total
pub mod Window
pub mod Keys
use Prim.Native.String.{◌++◌}
use yaima.Base.{
  ℕ, suc, ◌+◌, ◌-◌, ◌*◌, ◌/◌, ◌%◌, ◌^◌, max, String, Bool, Option, none, some, ltb, if◌then◌else◌,
  ◌==◌, nat_eq, to_decimal,
}
use yaima.External.{Env}
use yaima.Program.{
  World, Outcome, ok, err, panicked, Action, pure, raise, panic, sample, ◌>>=◌, ◌>>◌,
}
use yaima.Tokens.{nanos, unix_now, cast_signed}

pub record RateLimiter : Type 0 where
  pub max_requests : ℕ
  pub window_secs : ℕ

-- `check`'s `Result<u64, u64>`.
pub data Verdict : Type 0 where
  allowed : (remaining : ℕ) → Verdict
  limited : (retry_after : ℕ) → Verdict

-- What is left of the window, with the wrap-around of `u64`.
abbrev pub until_next : ℕ → ℕ → ℕ
until_next window_secs now =
    ((now / window_secs + 1) * window_secs % 2 ^ 64 + 2 ^ 64 - now) % 2 ^ 64

unfoldable pub bucket_key : String → String → ℕ → String
bucket_key endpoint ip window = "rl:" ++ endpoint ++ ":" ++ ip ++ ":" ++ to_decimal window

abbrev pub judged : RateLimiter → ℕ → ℕ → Verdict
judged limiter now count =
    if ltb limiter.max_requests count
    then limited (max (until_next limiter.window_secs now) 1)
    else allowed (limiter.max_requests - count)

module _ {S : Type 0} (env : Env S) where
  abbrev pub pool_ready : Option String → Action S String Unit
  pool_ready none w = (ok tt, w)
  pool_ready (some e) w = (err e, w)

  abbrev pub run_unless : {A : Type 0} → Option String → (S → A × S) → Action S String A
  run_unless none f w =
      let (a, store) = f w.store in (ok a, record w { store = store; tick = suc w.tick })
  run_unless (some e) f w = (err e, record w { tick = suc w.tick })

  unfoldable pub incr_command : String → Action S String ℕ
  incr_command key w =
      run_unless (env.command_fault w.tick)
        (λ store.
          let now = env.now w.tick / nanos in
          (env.valkey.incr now key store, env.valkey.after_incr now key store))
        w

  unfoldable pub expire_command : String → ℕ → Action S String Unit
  expire_command key ttl w =
      run_unless (env.command_fault w.tick)
        (λ store. (tt, env.valkey.expire (env.now w.tick / nanos) key (cast_signed ttl) store)) w

  unfoldable pub connect : Action S String Unit
  connect w = pool_ready (env.pool_fault w.tick) w

  -- The expiry that the first request of a window sets.
  unfoldable pub set_expiry : RateLimiter → String → ℕ → Action S String Unit
  set_expiry limiter key count =
      if count == 1 then expire_command key (limiter.window_secs * 2 % 2 ^ 64) else pure tt

  -- `RateLimiter::incr`
  unfoldable pub incr : RateLimiter → String → Action S String ℕ
  incr limiter key = do connect; count ← incr_command key; set_expiry limiter key count; pure count

  -- An error of Valkey counts as within the limits.
  abbrev pub verdict : {E : Type 0} → RateLimiter → ℕ → Outcome String ℕ → Outcome E Verdict
  verdict limiter now (ok count) = ok (judged limiter now count)
  verdict limiter now (err e) = ok (allowed limiter.max_requests)
  verdict limiter now panicked = panicked

  unfoldable pub check_at : {E : Type 0} → RateLimiter → String → String → ℕ → Action S E Verdict
  check_at limiter ip endpoint now w =
      let (r, w') = incr limiter (bucket_key endpoint ip (now / limiter.window_secs)) w in
      (verdict limiter now r, w')

  -- `RateLimiter::check`; the division panics on a window of no seconds.
  unfoldable pub check : {E : Type 0} → RateLimiter → String → String → Action S E Verdict
  check limiter ip endpoint = do
    now ← sample (unix_now env)
    if limiter.window_secs == 0 then panic else check_at limiter ip endpoint now
