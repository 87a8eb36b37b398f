-- ===== src/Tests/Window.antt =====
-- The rate limiter in a window of the sample world's clock.
use yaima.Base.{suc, ◌≡◌, refl, [], ◌∷◌, arith}
use yaima.Errors.{AppError}
use yaima.Program.{ok}
use yaima.Sample.{env, start}
use yaima.Tokens.{unix_now}
use yaima.Valkey.Counters.{list_store-IsCounter, list_store_empty}
use yaima.RateLimit.{RateLimiter, judged, bucket_key, check}
use yaima.RateLimit.Window.{Requests, requests_on, check_all, IsSmooth, InWindow}
use yaima.RateLimit.Window.Judged.{check-InWindow}

abbrev strict : RateLimiter
strict = record { max_requests = 1; window_secs = 60 }

smooth : IsSmooth env strict
smooth = record { pool_answers = λ n. refl; commands_answer = λ n. refl }

-- The sample clock reads 1000 at first: the window from 960 to 1019.
sixteenth : InWindow env strict 16 20
sixteenth n h = omega arith

abbrev earlier : Requests
earlier = ("1.2.3.4", "post:/auth/login") ∷ ("5.6.7.8", "post:/auth/login") ∷ []

check-InWindow_example :
    let w' = check_all env strict earlier start in
    let before = requests_on (bucket_key "post:/auth/login" "1.2.3.4" 16) 16 earlier in
    (check env {E = AppError} strict "1.2.3.4" "post:/auth/login" w').0
    ≡ ok (judged strict (unix_now env w'.tick) (suc before))
check-InWindow_example =
    check-InWindow env strict list_store-IsCounter {E = AppError} smooth (omega arith) (omega arith)
      16 20 sixteenth earlier "1.2.3.4" "post:/auth/login" start (omega arith)
      (list_store_empty (bucket_key "post:/auth/login" "1.2.3.4" 16))
