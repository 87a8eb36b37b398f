-- ===== src/RateLimit/Window/Counting.antt =====
-- rate_limit.rs: what a check does to the counters of a window.
use mathlib.Core.Path.{subst}
use yaima.Base.{
  ℕ, zero, suc, ◌+◌, ◌*◌, ◌/◌, ◌%◌, ◌^◌, ◌≤◌, ◌<◌, String, ◌≡◌, ◌≢◌, ap, sym, ◌∙◌, true, false,
  none, some, [], ◌∷◌, ◌==◌, string_eq, nat_eq, arith, Bool-cases, inl, inr, ltb, length,
}
use text.Mathlib.TextEquality.{eq_iff}
use yaima.External.{Env, pos}
use yaima.Valkey.Counters.{IsCounter, bumped}
use yaima.Program.{World, ok, ◌>>=◌}
use yaima.Tokens.{unix_now, cast_signed}
use yaima.RateLimit.{
  RateLimiter, judged, bucket_key, incr_command, expire_command, connect, set_expiry, incr,
  check_at, check,
}
use yaima.RateLimit.Window.{
  Requests, requests_on, Counts, count_at-Counts, check_all, IsSmooth, InWindow, close_of,
  in_window_lem, stored, ticked,
}

module _ {S : Type 0} (env : Env S) (limiter : RateLimiter) where
  module _ (smooth : IsSmooth env limiter) (positive : 0 < limiter.window_secs) where
    pub check_run :
        {E : Type 0} (ip endpoint : String) (w : World S)
        → let key = bucket_key endpoint ip (unix_now env w.tick / limiter.window_secs) in
          check env {E = E} limiter ip endpoint w ≡ (
            ok (
                judged limiter
                  (unix_now env w.tick)
                  (env.valkey.incr (unix_now env (suc w.tick)) key w.store)),
            record w {
              store = stored env limiter key w.tick w.store;
              tick = ticked env limiter key w.tick w.store;
            },
          )
    unfolding check check_at incr connect incr_command set_expiry expire_command ◌>>=◌
    check_run ip endpoint w =
        let open_window : (limiter.window_secs == 0) ≡ false = ground arith in
        let key = bucket_key endpoint ip (unix_now env w.tick / limiter.window_secs) in
        elim (Bool-cases (env.valkey.incr (unix_now env (suc w.tick)) key w.store == 1)) [
          | inl first ↦ simp (
            open_window,
            smooth.pool_answers (suc w.tick),
            smooth.commands_answer (suc w.tick),
            smooth.commands_answer (suc (suc w.tick)),
            first,
          )
          | inr later ↦ simp (
            open_window,
            smooth.pool_answers (suc w.tick),
            smooth.commands_answer (suc w.tick),
            later,
          )
        ]

    module _ (counter : IsCounter env.valkey) (fits : limiter.window_secs * 2 < 2 ^ 63)
        (window last : ℕ) (within : InWindow env limiter window last) where
      ttl_fits : cast_signed (limiter.window_secs * 2 % 2 ^ 64) ≡ pos (limiter.window_secs * 2)
      ttl_fits = ground arith

      -- One check counts its key on.
      pub counted_on :
          (key : String) (t n : ℕ) (s : S)
          → t + 3 ≤ last
          → Counts (close_of env limiter window) n (counter.entry key s)
          → (env.valkey.incr (unix_now env (suc t)) key s ≡ suc n)
            × Counts
                (close_of env limiter window)
                (suc n)
                (counter.entry key (stored env limiter key t s))
      counted_on key t n s bound h =
          let (early, _) =
            in_window_lem env limiter window (unix_now env (suc t)) positive
              (within (suc t) (ground arith)) in
          let (_, late) =
            in_window_lem env limiter window (unix_now env (suc (suc t))) positive
              (within (suc (suc t)) (ground arith)) in
          let count : env.valkey.incr (unix_now env (suc t)) key s ≡ suc n =
            counter.incr_law key _ s
            ∙ ap suc (count_at-Counts (close_of env limiter window) _ n _ early h) in
          (count, go n h count early late)
        where
          go :
              (n : ℕ)
              → Counts (close_of env limiter window) n (counter.entry key s)
              → env.valkey.incr (unix_now env (suc t)) key s ≡ suc n
              → unix_now env (suc t) < close_of env limiter window
              → close_of env limiter window ≤ unix_now env (suc (suc t)) + limiter.window_secs * 2
              → Counts
                  (close_of env limiter window)
                  (suc n)
                  (counter.entry key (stored env limiter key t s))
          go zero h count early late =
              let fresh =
                counter.entry_incr key (unix_now env (suc t)) s
                ∙ ap (λ e. some (bumped (unix_now env (suc t)) e)) h in
              let s₁ = env.valkey.after_incr (unix_now env (suc t)) key s in
              (
                unix_now env (suc (suc t)) + limiter.window_secs * 2,
                rw (count, ttl_fits)
                    (counter.entry_expire key (unix_now env (suc (suc t))) (limiter.window_secs * 2)
                      1 none s₁ fresh),
                late,
              )
          go (suc m) (dies, is, open_until) count early late =
              let lives : ltb (unix_now env (suc t)) dies ≡ true = ground arith in
              let again : (suc (suc m) == 1) ≡ false = ground arith in
              (
                dies,
                rw (count, again)
                    (counter.entry_incr key (unix_now env (suc t)) s
                      ∙ ap (λ e. some (bumped (unix_now env (suc t)) e)) is
                      ∙ rw lives (ground arith)),
                open_until,
              )

      -- A check leaves the counters of other keys alone.
      stored_ne :
          (key other : String) (t : ℕ) (s : S)
          → other ≢ key
          → counter.entry key (stored env limiter other t s) ≡ counter.entry key s
      stored_ne key other t s ne =
          elim (Bool-cases (env.valkey.incr (unix_now env (suc t)) other s == 1)) [
            | inl first ↦ rw first (
                counter.entry_expire_ne other key _ _ _ ne ∙ counter.entry_incr_ne other key _ s ne)
            | inr later ↦ rw later (counter.entry_incr_ne other key _ s ne)
          ]

      ticked_within : (key : String) (t : ℕ) (s : S) → ticked env limiter key t s ≤ t + 3
      ticked_within key t s = ground arith

      module _ (key : String) where
        pub check_all-Counts :
            (rs : Requests) (n : ℕ) (w : World S)
            → w.tick + 3 * length rs ≤ last
            → Counts (close_of env limiter window) n (counter.entry key w.store)
            → let w' = check_all env limiter rs w in
              Counts
                (close_of env limiter window)
                (n + requests_on key window rs)
                (counter.entry key w'.store)
              × (w'.tick ≤ w.tick + 3 * length rs)
        unfolding check_all
        check_all-Counts [] n w bound h = (
          subst (λ m. Counts (close_of env limiter window) m (counter.entry key w.store))
              (ground arith) h,
          ground arith,
        )
        check_all-Counts ((ip, endpoint) ∷ rest) n w bound h =
            let other = bucket_key endpoint ip window in
            let run =
              ap (λ r. r.1) (check_run {E = Unit} ip endpoint w)
              ∙ ap
                  (λ q.
                    let k = bucket_key endpoint ip q in
                    record w {
                      store = stored env limiter k w.tick w.store;
                      tick = ticked env limiter k w.tick w.store;
                    })
                  (within w.tick (ground arith)) in
            let w₁ : World S = record w {
              store = stored env limiter other w.tick w.store;
              tick = ticked env limiter other w.tick w.store;
            } in
            let soon = ticked_within other w.tick w.store in
            subst
              (λ (x : World S).
                let w' = check_all env limiter rest x in
                Counts (close_of env limiter window)
                  (n + requests_on key window ((ip, endpoint) ∷ rest)) (counter.entry key w'.store)
                × (w'.tick ≤ w.tick + 3 * length ((ip, endpoint) ∷ rest)))
              (sym run)
              (elim (Bool-cases (other == key)) [
                | inl same ↦
                    (let is : other ≡ key = (eq_iff other key).0 same in
                      let next = (counted_on key w.tick n w.store (ground arith) h).1 in
                      let (counts, later) = check_all-Counts rest (suc n) w₁ (ground arith) (
                        subst
                          (λ k.
                            Counts (close_of env limiter window) (suc n)
                              (counter.entry key (stored env limiter k w.tick w.store)))
                          (sym is) next) in
                      (
                        rw same (
                            subst
                              (λ m.
                                Counts (close_of env limiter window) m
                                  (counter.entry key (check_all env limiter rest w₁).store))
                              (ground arith) counts),
                        ground arith,
                      ))
                | inr differs ↦
                    (let ne : other ≢ key = ground (arith, eq_iff other key) in
                      let (counts, later) = check_all-Counts rest n w₁ (ground arith) (
                        subst (Counts (close_of env limiter window) n)
                          (sym (stored_ne key other w.tick w.store ne)) h) in
                      (rw differs counts, ground arith))
              ])
