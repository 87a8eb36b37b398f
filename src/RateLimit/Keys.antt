-- ===== src/RateLimit/Keys.antt =====
-- rate_limit.rs: the bucket keys of the endpoints that routes/auth.rs puts behind the limiter.
use Prim.Native.String.{◌++◌, len, slice}
use text.Mathlib.TextPositions.{slice-append_left}
use text.Mathlib.Text.{◌==◌}
use text.Mathlib.TextEquality.{eq_iff}
use mathlib.Core.Bool.{true≢false}
use text.Mathlib.TextLemmas.{append_assoc, append_cancel_left, append_cancel_right}
use yaima.Base.{false, ℕ, String, ◌≡◌, refl, [], to_decimal, ap, sym, ◌∙◌}
use yaima.Middleware.{post, endpoint_key}
use yaima.RateLimit.{bucket_key}

-- The routes that router puts behind the limiter.
pub data LimitedEndpoint : Type 0 where
  to_login to_register to_refresh to_session : LimitedEndpoint

abbrev pub path_of : LimitedEndpoint → String
path_of to_login = "/auth/login"
path_of to_register = "/auth/register"
path_of to_refresh = "/auth/refresh"
path_of to_session = "/auth/session"

abbrev pub key_of : LimitedEndpoint → String
key_of e = endpoint_key (record { method = post; path = path_of e; headers = [] })

same_ip :
    (endpoint ip ip' : String) (window : ℕ)
    → bucket_key endpoint ip window ≡ bucket_key endpoint ip' window
    → ip ≡ ip'
unfolding bucket_key
same_ip endpoint ip ip' window h =
    append_cancel_right ip ip' (":" ++ to_decimal window) (
      append_cancel_left ":" _ _ (append_cancel_left endpoint _ _ (append_cancel_left "rl:" _ _ h)))

-- Texts that are equal and start with texts of one length start with one text.
same_start : (p q s t : String) → len p ≡ len q → p ++ s ≡ q ++ t → p ≡ q
same_start p q s t size h =
    sym (slice-append_left p s)
    ∙ ap (λ x. slice x 0 (len p)) h
    ∙ ap (λ n. slice (q ++ t) 0 n) size
    ∙ slice-append_left q t

-- The keys split where they differ.
split : (p q rest s : String) → p ++ q ≡ rest → rest ++ s ≡ p ++ (q ++ s)
split p q rest s is = ap (λ x. x ++ s) (sym is) ∙ append_assoc p q s

-- Two keys that go on from different starts of one length are not equal.
differ :
    {A : Type 0}
    → (p q p' q' k k' s t : String) → p ++ q ≡ k
    → p' ++ q' ≡ k'
    → len p ≡ len p'
    → (p == p') ≡ false
    → k ++ s ≡ k' ++ t
    → A
differ p q p' q' k k' s t is is' size apart h =
    let same =
      same_start p p' (q ++ s) (q' ++ t) size (sym (split p q k s is) ∙ h ∙ split p' q' k' t is') in
    absurd (true≢false (sym ((eq_iff p p').1 same) ∙ apart))

same_endpoint : (e f : LimitedEndpoint) (s t : String) → key_of e ++ s ≡ key_of f ++ t → e ≡ f
unfolding endpoint_key
same_endpoint to_login to_login s t h = refl
same_endpoint to_login to_register s t h =
    differ "post:/auth/l" "ogin" "post:/auth/r" "egister" _ _ s t refl refl refl refl h
same_endpoint to_login to_refresh s t h =
    differ "post:/auth/l" "ogin" "post:/auth/r" "efresh" _ _ s t refl refl refl refl h
same_endpoint to_login to_session s t h =
    differ "post:/auth/l" "ogin" "post:/auth/s" "ession" _ _ s t refl refl refl refl h
same_endpoint to_register to_login s t h =
    differ "post:/auth/r" "egister" "post:/auth/l" "ogin" _ _ s t refl refl refl refl h
same_endpoint to_register to_register s t h = refl
same_endpoint to_register to_refresh s t h =
    differ "post:/auth/reg" "ister" "post:/auth/ref" "resh" _ _ s t refl refl refl refl h
same_endpoint to_register to_session s t h =
    differ "post:/auth/r" "egister" "post:/auth/s" "ession" _ _ s t refl refl refl refl h
same_endpoint to_refresh to_login s t h =
    differ "post:/auth/r" "efresh" "post:/auth/l" "ogin" _ _ s t refl refl refl refl h
same_endpoint to_refresh to_register s t h =
    differ "post:/auth/ref" "resh" "post:/auth/reg" "ister" _ _ s t refl refl refl refl h
same_endpoint to_refresh to_refresh s t h = refl
same_endpoint to_refresh to_session s t h =
    differ "post:/auth/r" "efresh" "post:/auth/s" "ession" _ _ s t refl refl refl refl h
same_endpoint to_session to_login s t h =
    differ "post:/auth/s" "ession" "post:/auth/l" "ogin" _ _ s t refl refl refl refl h
same_endpoint to_session to_register s t h =
    differ "post:/auth/s" "ession" "post:/auth/r" "egister" _ _ s t refl refl refl refl h
same_endpoint to_session to_refresh s t h =
    differ "post:/auth/s" "ession" "post:/auth/r" "efresh" _ _ s t refl refl refl refl h
same_endpoint to_session to_session s t h = refl

-- In one window, requests to two of the limited endpoints, or from two addresses, are counted under
-- different keys.
pub bucket_key-eq :
    (e f : LimitedEndpoint) (ip ip' : String) (window : ℕ)
    → bucket_key (key_of e) ip window ≡ bucket_key (key_of f) ip' window
    → (e ≡ f) × (ip ≡ ip')
unfolding bucket_key
bucket_key-eq e f ip ip' window h =
    let same = same_endpoint e f _ _ (append_cancel_left "rl:" _ _ h) in
    (
      same,
      same_ip (key_of f) ip ip' window (ap (λ x. bucket_key (key_of x) ip window) (sym same) ∙ h),
    )
