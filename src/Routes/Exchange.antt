-- ===== src/Routes/Exchange.antt =====
-- routes/auth.rs `callback` and `session`: the one-time code that takes a session from one to the
-- other.
use Prim.Native.String.{◌++◌}
use mathlib.Core.Path.{subst}
use yaima.Base.{ℕ, suc, ◌+◌, ◌/◌, ◌<◌, String, ◌≡◌, refl, ap, sym, ◌∙◌, some}
use yaima.Config.{Config}
use yaima.Models.{AuthResponse}
use yaima.Errors.{AppError, OAuthError, oauth_error, exchange_code_invalid}
use yaima.External.{Env}
use yaima.Program.{
  World, Outcome, ok, err, panicked, Action, pure, ok_or, continue, convert, ◌>>=◌, map_err,
}
use yaima.Program.Inversion.{Returns, after, map_err-Returns, pure-Returns}
use yaima.Program.Still.{IsStill, still_rules}
use yaima.Valkey.{IsStore}
use yaima.Tokens.{nanos}
use yaima.Users.{OAuthProfile}
use yaima.Auth.{login_or_register_oauth}
use yaima.OauthStore.{take_exchange, store_exchange, exchange_ttl_secs}
use yaima.OauthStore.OneTime.{
  IsUp, second, store_exchange_up, store_exchange-take_exchange, take_exchange_once,
}
use yaima.Routes.{
  Response, redirect, authenticated, CallbackParams, handle_callback, handle_session,
}

module _ {S : Type 0} (env : Env S) (config : Config) where
  finish : String → Action S AppError Response
  finish payload = do
    auth ← ok_or (env.json.auth_from_str payload) (oauth_error exchange_code_invalid)
    pure (authenticated auth)

  session_run :
      (code : String) (w : World S)
      → handle_session env config (record { code = code }) w
        ≡ (let (r, w₁) = take_exchange env code w in continue (convert oauth_error r) finish w₁)
  unfolding handle_session finish map_err ◌>>=◌
  session_run code w = refl

  finish-IsStill : (payload : String) → IsStill (finish payload)
  unfolding finish
  finish-IsStill payload = search still_rules

  session_leaves :
      (r : Outcome OAuthError String) (w : World S)
      → (continue (convert oauth_error r) finish w).1 ≡ w
  session_leaves (ok payload) w = (finish-IsStill payload).same w
  session_leaves (err e) w = refl
  session_leaves panicked w = refl

  session_gives :
      (code payload : String) (auth : AuthResponse) (w : World S)
      → (take_exchange env code w).0 ≡ ok payload
      → env.json.auth_from_str payload ≡ some auth
      → (handle_session env config (record { code = code }) w).0 ≡ ok (authenticated auth)
  unfolding finish ◌>>=◌
  session_gives code payload auth w taken parsed =
      ap (λ r. r.0) (session_run code w)
      ∙ ap (λ r. (continue (convert oauth_error r) finish (take_exchange env code w).1).0) taken
      ∙ simp parsed

  session_refuses :
      (code : String) (w : World S)
      → (take_exchange env code w).0 ≡ err exchange_code_invalid
      → (handle_session env config (record { code = code }) w).0
        ≡ err (oauth_error exchange_code_invalid)
  session_refuses code w refused =
      ap (λ r. r.0) (session_run code w)
      ∙ ap (λ r. (continue (convert oauth_error r) finish (take_exchange env code w).1).0) refused

  -- What a callback that redirects has done last: it logged the user of a profile in, and stored the
  -- response under the code of the redirect.
  record IsHandedOver (r : Response) (w' : World S) : Type 0 where
    profile : OAuthProfile
    auth : AuthResponse
    code : String
    at : World S
    logged_in : World S
    entered : World S
    entry : Returns (login_or_register_oauth env config profile) entered auth logged_in
    redirects : r ≡ redirect ("/auth/success?code=" ++ code)
    stored : (store_exchange env code (env.json.auth_to_string auth) at).1 ≡ w'

  callback-IsHandedOver :
      (slug : String) (params : CallbackParams) (w : World S) (r : Response) (w' : World S)
      → Returns (handle_callback env config slug params) w r w'
      → IsHandedOver r w'
  unfolding handle_callback
  callback-IsHandedOver slug params w r w' h = after w r w' _ _ h λ _ w₁ _ h.
      after w₁ r w' _ _ h λ _ w₂ _ h. after w₂ r w' _ _ h λ _ w₃ _ h.
        after w₃ r w' _ _ h λ _ w₄ _ h. after w₄ r w' _ _ h λ _ w₅ _ h.
          after w₅ r w' _ _ h λ _ w₆ _ h. after w₆ r w' _ _ h λ profile w₇ _ h.
            after w₇ r w' _ _ h λ auth w₈ logged_in h. after w₈ r w' _ _ h λ code w₉ _ h.
              after w₉ r w' _ _ h λ u w₁₀ stored h.
                let (is, left) = pure-Returns _ w₁₀ r w' h in
                record {
                  profile = profile;
                  auth = auth;
                  code = code;
                  at = w₉;
                  logged_in = w₈;
                  entered = w₇;
                  entry = logged_in;
                  redirects = sym is;
                  stored = ap (λ x. x.1) (map_err-Returns _ _ w₉ u w₁₀ stored) ∙ left;
                }

  -- The session that a callback's redirect is good for: its code gives the response of the login that
  -- the callback made, once.
  pub record IsSession (r : Response) (w' : World S) : Type 0 where
    pub profile : OAuthProfile
    pub auth : AuthResponse
    pub code : String
    pub entered : World S
    pub logged_in : World S
    pub entry : Returns (login_or_register_oauth env config profile) entered auth logged_in
    pub redirects : r ≡ redirect ("/auth/success?code=" ++ code)
    pub given : (handle_session env config (record { code = code }) w').0 ≡ ok (authenticated auth)
    pub given_once :
        (handle_session env config
          (record { code = code })
          (handle_session env config (record { code = code }) w').1).0
        ≡ err (oauth_error exchange_code_invalid)

  module _ (laws : IsStore env.valkey) (up : IsUp env) where
    session_once :
        (code : String) (w : World S)
        → (handle_session env config
            (record { code = code })
            (handle_session env config (record { code = code }) w).1).0
          ≡ err (oauth_error exchange_code_invalid)
    session_once code w =
        let left =
          ap (λ r. r.1) (session_run code w)
          ∙ session_leaves (take_exchange env code w).0 (take_exchange env code w).1 in
        ap (λ x. (handle_session env config (record { code = code }) x).0) left
        ∙ session_refuses code (take_exchange env code w).1 (take_exchange_once env laws up code w)

    -- A callback that redirects has logged the user of a profile in and hands that response over: its
    -- redirect carries a code for which the session endpoint, called next, gives exactly the response,
    -- and refuses a second time. This is so if Valkey behaves as documented and no call of it fails,
    -- serde_json reads back what it writes, and the clock goes on by less than 120 seconds from one
    -- call to the next.
    pub callback-IsSession :
        ((a : AuthResponse) → env.json.auth_from_str (env.json.auth_to_string a) ≡ some a)
        → ((n : ℕ) → env.now (suc n) / nanos < env.now n / nanos + exchange_ttl_secs)
        → (slug : String) (params : CallbackParams) (w : World S) (r : Response) (w' : World S)
        → Returns (handle_callback env config slug params) w r w'
        → IsSession r w'
    callback-IsSession round prompt slug params w r w' h =
        let over = callback-IsHandedOver slug params w r w' h in
        let payload = env.json.auth_to_string over.auth in
        let soon =
          subst (λ (x : World S). second env x < second env over.at + exchange_ttl_secs)
            (sym (store_exchange_up env up over.code payload over.at)) (prompt over.at.tick) in
        let taken : (take_exchange env over.code w').0 ≡ ok payload =
          subst (λ x. (take_exchange env over.code x).0 ≡ ok payload) over.stored
            (store_exchange-take_exchange env laws up over.code payload over.at soon) in
        record {
          profile = over.profile;
          auth = over.auth;
          code = over.code;
          entered = over.entered;
          logged_in = over.logged_in;
          entry = over.entry;
          redirects = over.redirects;
          given = session_gives over.code payload over.auth w' taken (round over.auth);
          given_once = session_once over.code w';
        }
