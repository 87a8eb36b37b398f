-- ===== src/OauthStore/OneTime.antt =====
-- services/oauth.rs: how often an OAuth state and an exchange code can be used.
use Prim.Native.String.{◌++◌}
use mathlib.Core.Path.{subst}
use yaima.Base.{
  ℕ, suc, ◌+◌, ◌/◌, ◌<◌, String, ◌≡◌, refl, ap, ◌∙◌, Option, none, some, ◌==◌, if◌then◌else◌,
}
use yaima.Config.{OAuthProvider, google, git_hub, oauth_provider_eq, from_slug, slug, to_string}
use yaima.Errors.{OAuthError, invalid_state, provider_mismatch, exchange_code_invalid}
use yaima.External.{Env, StoredPendingAuth}
use yaima.Program.{World, ok, err, ok_or, ◌>>=◌}
use yaima.Program.Still.{IsStill, ok_or-IsStill, still_rules}
use yaima.Valkey.{IsStore}
use yaima.Tokens.{nanos}
use yaima.OauthStore.{
  state_ttl_secs, exchange_ttl_secs, key_prefix, exchange_prefix, get_connection, command, set_ex,
  get_del, insert, read_state, take, store_exchange, take_exchange,
}

to_string-from_slug : (p : OAuthProvider) → from_slug (to_string p) ≡ some p
unfolding from_slug to_string slug
to_string-from_slug google = refl
to_string-from_slug git_hub = refl

module _ {S : Type 0} (env : Env S) where
  -- No call of Valkey fails.
  pub record IsUp : Type 0 where
    pub pool : (n : ℕ) → env.pool_fault n ≡ none
    pub commands : (n : ℕ) → env.command_fault n ≡ none

  -- The second of the clock at the next call.
  abbrev pub second : World S → ℕ
  second w = env.now w.tick / nanos

  read_state-IsStill :
      (found : Option String) (p : OAuthProvider) → IsStill (read_state env found p)
  unfolding read_state
  read_state-IsStill found p = search still_rules depth 20

  abbrev pub set : String → String → ℕ → World S → World S
  set key value ttl w = record w {
    store = env.valkey.set_ex (second w) key value ttl w.store;
    tick = suc w.tick;
  }

  abbrev pub deleted : String → World S → World S
  deleted key w = record w {
    store = env.valkey.after_get_del (second w) key w.store;
    tick = suc w.tick;
  }

  abbrev pending : OAuthProvider → String → StoredPendingAuth
  pending p verifier = record { verifier_secret = verifier; provider = to_string p }

  module _ (up : IsUp) where
    insert_up :
        (state : String) (p : OAuthProvider) (verifier : String) (w : World S)
        → (insert env state p verifier w).1
          ≡ set
              (key_prefix ++ state)
              (env.json.pending_to_string (pending p verifier))
              state_ttl_secs
              w
    unfolding insert get_connection set_ex command ◌>>=◌
    insert_up state p verifier w = simp (up.pool w.tick, up.commands w.tick)

    take_up :
        (state : String) (p : OAuthProvider) (w : World S)
        → take env state p w
          ≡ read_state env
              (env.valkey.get_del (second w) (key_prefix ++ state) w.store)
              p
              (deleted (key_prefix ++ state) w)
    unfolding take get_connection get_del command ◌>>=◌
    take_up state p w = simp (up.pool w.tick, up.commands w.tick)

    pub store_exchange_up :
        (code payload : String) (w : World S)
        → (store_exchange env code payload w).1
          ≡ set (exchange_prefix ++ code) payload exchange_ttl_secs w
    unfolding store_exchange get_connection set_ex command ◌>>=◌
    store_exchange_up code payload w = simp (up.pool w.tick, up.commands w.tick)

    pub take_exchange_up :
        (code : String) (w : World S)
        → take_exchange env code w
          ≡ ok_or
              (env.valkey.get_del (second w) (exchange_prefix ++ code) w.store)
              exchange_code_invalid
              (deleted (exchange_prefix ++ code) w)
    unfolding take_exchange get_connection get_del command ◌>>=◌
    take_exchange_up code w = simp (up.pool w.tick, up.commands w.tick)

  read_stored :
      (raw verifier : String) (p q : OAuthProvider) (w : World S)
      → env.json.pending_from_str raw ≡ some (pending p verifier)
      → (read_state env (some raw) q w).0
        ≡ (if p == q then ok verifier else err (provider_mismatch q p))
  unfolding read_state ◌>>=◌ from_slug to_string slug
  read_stored raw verifier google google w h = simp h
  read_stored raw verifier google git_hub w h = simp h
  read_stored raw verifier git_hub google w h = simp h
  read_stored raw verifier git_hub git_hub w h = simp h

  module _ (laws : IsStore env.valkey) (up : IsUp) where
    -- A state that is inserted for a provider gives its verifier to that provider, and a mismatch
    -- to the other one, within 600 seconds of the store's clock, if no call of Valkey fails, Valkey
    -- behaves as documented and serde_json reads back what it writes.
    pub insert-take :
        (state : String) (p q : OAuthProvider) (verifier : String) (w : World S)
        → ((x : StoredPendingAuth)
            → env.json.pending_from_str (env.json.pending_to_string x) ≡ some x)
        → second (insert env state p verifier w).1 < second w + state_ttl_secs
        → (take env state q (insert env state p verifier w).1).0
          ≡ (if p == q then ok verifier else err (provider_mismatch q p))
    insert-take state p q verifier w round h =
        let k = key_prefix ++ state in
        let raw = env.json.pending_to_string (pending p verifier) in
        let w₁ = set k raw state_ttl_secs w in
        let h' : second w₁ < second w + state_ttl_secs =
          subst (λ x. second x < second w + state_ttl_secs) (insert_up up state p verifier w) h in
        ap (λ x. (take env state q x).0) (insert_up up state p verifier w)
        ∙ ap (λ r. r.0) (take_up up state q w₁)
        ∙ ap (λ o. (read_state env o q (deleted k w₁)).0)
            (laws.get_set k raw state_ttl_secs (second w) (second w₁) w.store h')
        ∙ read_stored raw verifier p q (deleted k w₁) (round (pending p verifier))

    -- Asking for a state consumes it: whichever providers the two calls name and whether or not the
    -- first succeeds, the second one in the world that the first leaves is refused with
    -- `OAUTH_INVALID_STATE`, if no call of Valkey fails and Valkey behaves as documented.
    pub take_once :
        (state : String) (p q : OAuthProvider) (w : World S)
        → (take env state q (take env state p w).1).0 ≡ err invalid_state
    unfolding read_state ◌>>=◌
    take_once state p q w =
        let k = key_prefix ++ state in
        let found = env.valkey.get_del (second w) k w.store in
        ap (λ x. (take env state q x).0)
          (ap (λ r. r.1) (take_up up state p w) ∙ (read_state-IsStill found p).same (deleted k w))
        ∙ ap (λ r. r.0) (take_up up state q (deleted k w))
        ∙ ap (λ o. (read_state env o q (deleted k (deleted k w))).0)
            (laws.get_again k (second w) (second (deleted k w)) w.store)

    -- A payload that is stored under a code is given for the code within 120 seconds of the store's
    -- clock, if no call of Valkey fails and Valkey behaves as documented.
    pub store_exchange-take_exchange :
        (code payload : String) (w : World S)
        → second (store_exchange env code payload w).1 < second w + exchange_ttl_secs
        → (take_exchange env code (store_exchange env code payload w).1).0 ≡ ok payload
    unfolding ◌>>=◌
    store_exchange-take_exchange code payload w h =
        let k = exchange_prefix ++ code in
        let w₁ = set k payload exchange_ttl_secs w in
        let h' : second w₁ < second w + exchange_ttl_secs =
          subst (λ x. second x < second w + exchange_ttl_secs) (store_exchange_up up code payload w)
            h in
        ap (λ x. (take_exchange env code x).0) (store_exchange_up up code payload w)
        ∙ ap (λ r. r.0) (take_exchange_up up code w₁)
        ∙ ap (λ o. (ok_or {S = S} {E = OAuthError} o exchange_code_invalid (deleted k w₁)).0)
            (laws.get_set k payload exchange_ttl_secs (second w) (second w₁) w.store h')

    -- An exchange code is good for one use: a second `take_exchange` in the world that the first
    -- leaves is refused with `EXCHANGE_CODE_INVALID`, if no call of Valkey fails and Valkey behaves
    -- as documented.
    pub take_exchange_once :
        (code : String) (w : World S)
        → (take_exchange env code (take_exchange env code w).1).0 ≡ err exchange_code_invalid
    unfolding ◌>>=◌
    take_exchange_once code w =
        let k = exchange_prefix ++ code in
        let found = env.valkey.get_del (second w) k w.store in
        ap (λ x. (take_exchange env code x).0)
          (ap (λ r. r.1) (take_exchange_up up code w)
            ∙ (ok_or-IsStill found exchange_code_invalid).same (deleted k w))
        ∙ ap (λ r. r.0) (take_exchange_up up code (deleted k w))
        ∙ ap
            (λ o.
              (ok_or {S = S} {E = OAuthError} o exchange_code_invalid (deleted k (deleted k w))).0)
            (laws.get_again k (second w) (second (deleted k w)) w.store)
