-- ===== src/OauthStore.antt =====
-- services/oauth.rs: the one-time entries in Valkey, and the OAuth 2.0 flow with the providers.
pub mod Keeps
pub mod OneTime
pub mod Profile
pub mod Fails
use Prim.Native.String.{◌++◌}
use yaima.Base.{
  ℕ, suc, ◌/◌, String, Bool, true, false, not, ◌&&◌, Option, none, some, List, [], ◌∷◌,
  if◌then◌else◌, ◌==◌, find, to_decimal,
}
use yaima.Config.{
  OAuthProvider, google, git_hub, oauth_provider_eq, OAuthProviderConfig, from_slug, to_string,
}
use yaima.Errors.{
  OAuthError, invalid_state, provider_mismatch, token_exchange, provider_unreachable,
  incomplete_profile, invalid_redirect_uri, state_store, state_store_redis, exchange_code_invalid,
}
use yaima.External.{
  Env, StoredPendingAuth, GoogleUserInfo, GitHubUserInfo, GitHubEmail, Reply, replied, failed,
}
use yaima.Program.{
  World, Outcome, ok, err, Action, pure, raise, ok_or, sample, raise_if, ◌>>=◌, ◌>>◌,
}
use yaima.Users.{OAuthProfile}
use yaima.Tokens.{nanos}

abbrev pub state_ttl_secs : ℕ
state_ttl_secs = 600

abbrev pub key_prefix : String
key_prefix = "oauth_state:"

abbrev pub exchange_prefix : String
exchange_prefix = "oauth_exchange:"

abbrev pub exchange_ttl_secs : ℕ
exchange_ttl_secs = 120

abbrev pub provider_endpoints : OAuthProvider → String × String
provider_endpoints google =
    ("https://accounts.google.com/o/oauth2/v2/auth", "https://oauth2.googleapis.com/token")
provider_endpoints git_hub =
    ("https://github.com/login/oauth/authorize", "https://github.com/login/oauth/access_token")

abbrev pub provider_scopes : OAuthProvider → List String
provider_scopes google = "openid" ∷ "email" ∷ "profile" ∷ []
provider_scopes git_hub = "read:user" ∷ "user:email" ∷ []

abbrev pub is_usable : GitHubEmail → Bool
is_usable e = e.primary && e.verified

module _ {S : Type 0} where
  abbrev pub no_pool : Option String → Action S OAuthError Unit
  no_pool none w = (ok tt, w)
  no_pool (some e) w = (err (state_store e), w)

module _ {S A : Type 0} where
  abbrev pub run_command : Option String → (S → A × S) → Action S OAuthError A
  run_command none f w =
      let (a, store) = f w.store in (ok a, record w { store = store; tick = suc w.tick })
  run_command (some e) f w = (err (state_store_redis e), record w { tick = suc w.tick })

module _ {S : Type 0} (env : Env S) where
  -- `self.pool.get().await`
  unfoldable pub get_connection : Action S OAuthError Unit
  get_connection w = no_pool (env.pool_fault w.tick) w

  -- A command of Valkey, at a time in seconds. One that fails of itself does nothing.
  unfoldable pub command : {A : Type 0} → (ℕ → S → A × S) → Action S OAuthError A
  command f w = run_command (env.command_fault w.tick) (f (env.now w.tick / nanos)) w

  unfoldable pub set_ex : String → String → ℕ → Action S OAuthError Unit
  set_ex key value ttl = command λ now store. (tt, env.valkey.set_ex now key value ttl store)

  unfoldable pub get_del : String → Action S OAuthError (Option String)
  get_del key =
      command
        λ now store. (env.valkey.get_del now key store, env.valkey.after_get_del now key store)

  -- `StateStore::insert`
  unfoldable pub insert : String → OAuthProvider → String → Action S OAuthError Unit
  insert state provider verifier = do
    get_connection
    set_ex (key_prefix ++ state)
        (env.json.pending_to_string
          (record { verifier_secret = verifier; provider = to_string provider }))
        state_ttl_secs

  -- `take` once the entry is read: whether it is one, and for which provider.
  unfoldable pub read_state : Option String → OAuthProvider → Action S OAuthError String
  read_state found expected_provider = do
    raw ← ok_or found invalid_state
    stored ← ok_or (env.json.pending_from_str raw) invalid_state
    actual ← ok_or (from_slug stored.provider) invalid_state
    raise_if (not (actual == expected_provider)) (provider_mismatch expected_provider actual)
    pure stored.verifier_secret

  -- `StateStore::take`
  unfoldable pub take : String → OAuthProvider → Action S OAuthError String
  take state expected_provider = do
    get_connection
    found ← get_del (key_prefix ++ state)
    read_state found expected_provider

  unfoldable pub store_exchange : String → String → Action S OAuthError Unit
  store_exchange code payload = do
    get_connection
    set_ex (exchange_prefix ++ code) payload exchange_ttl_secs

  unfoldable pub take_exchange : String → Action S OAuthError String
  take_exchange code = do
    get_connection
    raw ← get_del (exchange_prefix ++ code)
    ok_or raw exchange_code_invalid

  abbrev pub url_checked : Option String → Action S OAuthError Unit
  url_checked none = pure tt
  url_checked (some e) = raise (invalid_redirect_uri e)

  -- `AuthUrl::new(…).map_err(…)?` and its like.
  unfoldable pub valid_url : String → Action S OAuthError Unit
  valid_url url = url_checked (env.providers.url_error url)

  -- `build_authorization_url`: the URL to redirect to.
  unfoldable pub build_authorization_url :
      OAuthProvider → OAuthProviderConfig → Action S OAuthError String
  build_authorization_url provider cfg = do
    verifier ← sample env.providers.pkce_verifier
    valid_url (provider_endpoints provider).0
    valid_url (provider_endpoints provider).1
    valid_url cfg.redirect_uri
    csrf ← sample env.providers.csrf_token
    insert csrf provider verifier
    pure (
        env.providers.authorize_url cfg.client_id (provider_endpoints provider).0 cfg.redirect_uri
          (provider_scopes provider) csrf verifier)

  abbrev pub reply_or : {A : Type 0} → (String → OAuthError) → Reply A → Action S OAuthError A
  reply_or e (replied a) = pure a
  reply_or e (failed s) = raise (e s)

  -- A call to a provider over the network.
  unfoldable pub remote :
      {A : Type 0} → (String → OAuthError) → (ℕ → Reply A) → Action S OAuthError A
  remote e call = do reply ← sample call; reply_or e reply

  -- `exchange_code`; the placeholder URL's `expect` holds.
  unfoldable pub exchange_code :
      OAuthProvider → OAuthProviderConfig → String → String → Action S OAuthError String
  exchange_code provider cfg code state = do
    verifier ← take state provider
    valid_url (provider_endpoints provider).1
    valid_url cfg.redirect_uri
    remote token_exchange
        λ n. env.providers.exchange n cfg (provider_endpoints provider).1 code verifier

  unfoldable pub fetch_google_profile : String → Action S OAuthError OAuthProfile
  fetch_google_profile access_token = do
    info ← remote provider_unreachable λ n. env.providers.google_userinfo n access_token
    pure (record {
      provider = google;
      provider_user_id = info.sub;
      email = info.email;
      display_name = info.name;
      avatar_url = info.picture;
    })

  abbrev pub usable_email : Option GitHubEmail → Option String
  usable_email none = none
  usable_email (some e) = some e.email

  unfoldable pub fetch_github_primary_email : String → Action S OAuthError String
  fetch_github_primary_email access_token = do
    emails ← remote provider_unreachable λ n. env.providers.github_emails n access_token
    ok_or (usable_email (find is_usable emails)) (incomplete_profile "email")

  unfoldable pub email_or_primary : String → Option String → Action S OAuthError String
  email_or_primary access_token (some e) = pure e
  email_or_primary access_token none = fetch_github_primary_email access_token

  abbrev name_or_login : Option String → String → Option String
  name_or_login (some name) login = some name
  name_or_login none login = some login

  unfoldable pub fetch_github_profile : String → Action S OAuthError OAuthProfile
  fetch_github_profile access_token = do
    info ← remote provider_unreachable λ n. env.providers.github_user n access_token
    email ← email_or_primary access_token info.email
    pure (record {
      provider = git_hub;
      provider_user_id = to_decimal info.id;
      email = email;
      display_name = name_or_login info.name info.login;
      avatar_url = info.avatar_url;
    })

  unfoldable pub fetch_user_profile : OAuthProvider → String → Action S OAuthError OAuthProfile
  fetch_user_profile google access_token = fetch_google_profile access_token
  fetch_user_profile git_hub access_token = fetch_github_profile access_token
