-- ===== src/RateLimit/Window/Judged.antt =====
-- rate_limit.rs: the fixed window, over all the requests that come in it.
use yaima.Base.{ℕ, suc, ◌+◌, ◌*◌, ◌/◌, ◌^◌, ◌≤◌, ◌<◌, String, ◌≡◌, ap, ◌∙◌, none, arith, length}
use yaima.External.{Env}
use yaima.Valkey.Counters.{IsCounter}
use yaima.Program.{World, ok}
use yaima.Tokens.{unix_now}
use yaima.RateLimit.{RateLimiter, judged, bucket_key, check}
use yaima.RateLimit.Window.{Requests, requests_on, check_all, IsSmooth, InWindow}
use yaima.RateLimit.Window.Counting.{check_run, counted_on, check_all-Counts}

module _ {S : Type 0} (env : Env S) (limiter : RateLimiter) (counter : IsCounter env.valkey) where
  -- In one window, after any requests of any callers, `check` gives the verdict on the count of the
  -- requests with its bucket key, itself included. This is so if `INCR` and `EXPIRE` behave as
  -- documented, no call of Valkey fails, the window is not empty and twice its length fits an `i64`,
  -- the clock stays in the window for these calls, and the key has no counter when the window opens.
  pub check-InWindow :
      {E : Type 0}
      → IsSmooth env limiter
      → 0 < limiter.window_secs
      → limiter.window_secs * 2 < 2 ^ 63
      → (window last : ℕ) → InWindow env limiter window last
      → (rs : Requests) (ip endpoint : String) (w : World S) → w.tick + 3 * suc (length rs) ≤ last
      → counter.entry (bucket_key endpoint ip window) w.store ≡ none
      → let w' = check_all env limiter rs w in
        let before = requests_on (bucket_key endpoint ip window) window rs in
        (check env {E = E} limiter ip endpoint w').0
        ≡ ok (judged limiter (unix_now env w'.tick) (suc before))
  check-InWindow {E = E} smooth positive fits window last within rs ip endpoint w bound opens =
      let key = bucket_key endpoint ip window in
      let w' = check_all env limiter rs w in
      let (counts, later) =
        check_all-Counts env limiter smooth positive counter fits window last within key rs 0 w
          (ground arith) opens in
      let (count, _) =
        counted_on env limiter smooth positive counter fits window last within key w'.tick
          (0 + requests_on key window rs) w'.store (ground arith) counts in
      let here : unix_now env w'.tick / limiter.window_secs ≡ window =
        within w'.tick (ground arith) in
      ap (λ r. r.0) (check_run env limiter smooth positive {E = E} ip endpoint w')
      ∙ ap
          (λ q. ok (
            judged limiter (unix_now env w'.tick)
              (env.valkey.incr (unix_now env (suc w'.tick)) (bucket_key endpoint ip q) w'.store)))
          here
      ∙ ap (λ n. ok (judged limiter (unix_now env w'.tick) n)) (count ∙ ground arith)
