-- ===== src/RateLimit/Bounds.antt =====
-- rate_limit.rs `check`: what a caller is told.
use yaima.Base.{
  ℕ, ◌+◌, ◌-◌, ◌*◌, ◌/◌, ◌%◌, ◌^◌, ◌≤◌, ◌<◌, ◌≡◌, refl, ltb, arith, Bool-cases, inl, inr,
}
use native.Mathlib.Nat.{mod-lt, mod-add-div'}
use yaima.RateLimit.{RateLimiter, Verdict, allowed, limited, until_next, judged}

-- The start of the window after the one of a time.
abbrev pub next_window : RateLimiter → ℕ → ℕ
next_window limiter now = (now / limiter.window_secs + 1) * limiter.window_secs

-- What a verdict on the `count`-th request of a window promises: the requests that are left, or a
-- wait of one second to one window that ends where the next window starts.
abbrev pub IsFair : RateLimiter → ℕ → ℕ → Verdict → Type 0
IsFair limiter now count (allowed remaining) = count + remaining ≡ limiter.max_requests
IsFair limiter now count (limited retry_after) =
    (limiter.max_requests < count)
    × (1 ≤ retry_after)
    × (retry_after ≤ limiter.window_secs)
    × (now + retry_after ≡ next_window limiter now)

until_next_lem :
    (limiter : RateLimiter) (now : ℕ)
    → 0 < limiter.window_secs
    → next_window limiter now < 2 ^ 64
    → (now < next_window limiter now) × (next_window limiter now ≤ now + limiter.window_secs)
until_next_lem limiter now positive fits =
    let q = now / limiter.window_secs * limiter.window_secs in
    let split = mod-add-div' now limiter.window_secs in
    let small = mod-lt now positive in
    let step : next_window limiter now ≡ q + limiter.window_secs = grind arith in
    (grind arith, grind arith)

wrapped :
    (next now : ℕ)
    → next < 2 ^ 64
    → now < next
    → (next % 2 ^ 64 + 2 ^ 64 - now) % 2 ^ 64 ≡ next - now
wrapped next now fits low = omega arith

IsFair-within :
    (limiter : RateLimiter) (now count next : ℕ)
    → next_window limiter now ≡ next
    → now < next
    → next ≤ now + limiter.window_secs
    → until_next limiter.window_secs now ≡ next - now
    → IsFair limiter now count (judged limiter now count)
IsFair-within limiter now count next is low high exact =
    elim (Bool-cases (ltb limiter.max_requests count)) [
      | inl h ↦ rw (h, exact) (ground (arith, is))
      | inr h ↦ rw h (ground arith)
    ]

-- The verdict on the `count`-th request of a window is `allowed` with the number of requests that
-- are left of the limit, or, beyond the limit, `limited` with a wait of at least one second and at
-- most one window, which ends where the next window starts; if the window is not empty and the
-- start of the next one fits 64 bits.
pub judged-IsFair :
    (limiter : RateLimiter) (now count : ℕ)
    → 0 < limiter.window_secs
    → next_window limiter now < 2 ^ 64
    → IsFair limiter now count (judged limiter now count)
judged-IsFair limiter now count positive fits =
    let (low, high) = until_next_lem limiter now positive fits in
    let next = next_window limiter now in
    let exact : until_next limiter.window_secs now ≡ next - now = wrapped next now fits low in
    IsFair-within limiter now count next refl low high exact
