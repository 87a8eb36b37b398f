-- ===== src/RateLimit/Total.antt =====
-- rate_limit.rs `check`: the answers over all that Valkey does.
use yaima.Base.{
  ℕ, suc, ◌/◌, ◌^◌, ◌<◌, String, ◌≡◌, ◌≢◌, ◌⊎◌, refl, ap, Bool-cases, Option-cases, false, none,
  some, arith, ◌==◌, nat_eq, inl, inr,
}
use yaima.External.{Env}
use yaima.Program.{World, Outcome, ok, err, ◌>>=◌}
use yaima.Program.Inversion.{Returns}
use yaima.Tokens.{nanos, unix_now}
use yaima.RateLimit.{
  RateLimiter, Verdict, allowed, judged, bucket_key, connect, incr_command, expire_command,
  set_expiry, incr, verdict, check_at, check,
}
use yaima.RateLimit.Bounds.{IsFair, next_window, judged-IsFair}

module _ {S : Type 0} (env : Env S) where
  -- The count that Valkey gives to an `INCR`.
  abbrev pub counted : String → World S → ℕ
  counted key w = env.valkey.incr (env.now w.tick / nanos) key w.store

  -- Of the calls that count a request, each that is made succeeds: the connection, the `INCR`, and
  -- the `EXPIRE` if the count is 1.
  abbrev pub IsUp : String → World S → Type 0
  IsUp key w =
      (env.pool_fault w.tick ≡ none)
      × (env.command_fault w.tick ≡ none)
      × ((counted key w ≢ 1) ⊎ (env.command_fault (suc w.tick) ≡ none))

  -- One of them fails.
  abbrev pub IsDown : String → World S → Type 0
  IsDown key w =
      ((e : String) × (env.pool_fault w.tick ≡ some e))
      ⊎ ((e : String) × (env.command_fault w.tick ≡ some e))
      ⊎ ((counted key w ≡ 1) × (e : String) × (env.command_fault (suc w.tick) ≡ some e))

  -- What a run of `incr` gives.
  abbrev HasCounted : String → World S → Outcome String ℕ → Type 0
  HasCounted key w r =
      (IsUp key w × (r ≡ ok (counted key w))) ⊎ (IsDown key w × (e : String) × (r ≡ err e))

  module _ (limiter : RateLimiter) where
    -- The verdict on a request at a time: a fair one on the count that Valkey gives it, or, where a
    -- call fails, the whole limit.
    abbrev pub IsHonest : String → ℕ → World S → Verdict → Type 0
    IsHonest key now w v =
        (IsUp key w × IsFair limiter now (counted key w) v)
        ⊎ (IsDown key w × (v ≡ allowed limiter.max_requests))

    incr-HasCounted : (key : String) (w : World S) → HasCounted key w (incr env limiter key w).0
    unfolding incr connect incr_command set_expiry expire_command ◌>>=◌
    incr-HasCounted key w = elim (Option-cases (env.pool_fault w.tick)) [
      | inr (e, down) ↦ inr (inl (e, down), e, simp down)
      | inl up ↦ elim (Option-cases (env.command_fault w.tick)) [
        | inr (e, down) ↦ inr (inr (inl (e, down)), e, simp (up, down))
        | inl answers ↦ elim (Bool-cases (counted key w == 1)) [
          | inr later ↦ inl ((up, answers, inl (ground arith)), simp (up, answers, later))
          | inl first ↦ elim (Option-cases (env.command_fault (suc w.tick))) [
            | inr (e, down) ↦
                inr (inr (inr (ground arith, e, down)), e, simp (up, answers, first, down))
            | inl expires ↦ inl ((up, answers, inr expires), simp (up, answers, first, expires))
          ]
        ]
      ]
    ]

    module _ {E : Type 0} (now : ℕ) (positive : 0 < limiter.window_secs)
        (fits : next_window limiter now < 2 ^ 64) where
      verdict-IsHonest :
          (key : String) (w : World S) (r : Outcome String ℕ)
          → HasCounted key w r
          → (v : Verdict) × (verdict env {E = E} limiter now r ≡ ok v) × IsHonest key now w v
      verdict-IsHonest key w r h = elim h [
        | inl (up, counts) ↦ (
          judged limiter now (counted key w),
          ap (verdict env limiter now) counts,
          inl (up, judged-IsFair limiter now (counted key w) positive fits),
        )
        | inr (down, e, fails) ↦
            (allowed limiter.max_requests, ap (verdict env limiter now) fails, inr (down, refl))
      ]

      check_at_total :
          (ip endpoint : String) (w : World S)
          → (v : Verdict) × (w' : World S) × Returns {E = E}
              (check_at env limiter ip endpoint now)
              w
              v
              w'
            × IsHonest (bucket_key endpoint ip (now / limiter.window_secs)) now w v
      unfolding check_at
      check_at_total ip endpoint w =
          let key : String = bucket_key endpoint ip (now / limiter.window_secs) in
          let run = incr env limiter key w in
          let (v, answers, honest) = verdict-IsHonest key w run.0 (incr-HasCounted key w) in
          (v, run.1, ap (λ r. (r, run.1)) answers, honest)

    -- `check` answers in every world, whichever calls of Valkey fail, if the window is not empty and
    -- the start of the next one fits 64 bits. Where no call fails, the answer is fair on the count
    -- that `INCR` gives for the caller's key; where one fails, it allows the whole limit.
    pub check_total :
        {E : Type 0} (ip endpoint : String) (w : World S)
        → 0 < limiter.window_secs
        → next_window limiter (unix_now env w.tick) < 2 ^ 64
        → let now = unix_now env w.tick in
          let key = bucket_key endpoint ip (now / limiter.window_secs) in
          (v : Verdict) × (w' : World S) × Returns {E = E} (check env limiter ip endpoint) w v w'
          × IsHonest key now (record w { tick = suc w.tick }) v
    unfolding check ◌>>=◌
    check_total {E = E} ip endpoint w positive fits =
        let open_window : (limiter.window_secs == 0) ≡ false = ground arith in
        let (v, w', returns, honest) =
          check_at_total {E = E} (unix_now env w.tick) positive fits ip endpoint
            (record w { tick = suc w.tick }) in
        (v, w', rw open_window returns, honest)
