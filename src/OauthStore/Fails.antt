-- ===== src/OauthStore/Fails.antt =====
-- The errors of the operations of services/oauth.rs.
use yaima.Base.{String, Option, none, some, ℕ}
use yaima.Config.{OAuthProvider, OAuthProviderConfig, google, git_hub}
use yaima.Errors.{
  OAuthError, invalid_state, provider_mismatch, token_exchange, provider_unreachable,
  incomplete_profile, invalid_redirect_uri, state_store, state_store_redis, exchange_code_invalid,
}
use yaima.External.{Env, Reply, replied, failed}
use yaima.Program.Fails.{Fails, Within, pure-Fails, raise-Fails, fails_rules}
use yaima.Program.{World}
use yaima.OauthStore.{
  no_pool, run_command, get_connection, command, set_ex, get_del, insert, read_state, take,
  store_exchange, take_exchange, url_checked, valid_url, build_authorization_url, reply_or, remote,
  exchange_code, fetch_google_profile, fetch_github_primary_email, email_or_primary,
  fetch_github_profile, fetch_user_profile,
}

Within-no_pool :
    {S : Type 0} (Q : OAuthError → Type 0)
    → ((s : String) → Q (state_store s))
    → (o : Option String) (w : World S) → Within Q (no_pool o w).0
Within-no_pool Q pool none w = tt
Within-no_pool Q pool (some e) w = pool e

Within-run_command :
    {S A : Type 0} (Q : OAuthError → Type 0)
    → ((s : String) → Q (state_store_redis s))
    → (o : Option String) (f : S → A × S) (w : World S) → Within Q (run_command o f w).0
Within-run_command Q redis none f w = tt
Within-run_command Q redis (some e) f w = redis e

module _ {Q : OAuthError → Type 0} {S : Type 0} (env : Env S) where
  url_checked-Fails :
      (o : Option String)
      → ((s : String) → Q (invalid_redirect_uri s))
      → Fails Q (url_checked env o)
  url_checked-Fails none bad = pure-Fails tt
  url_checked-Fails (some e) bad = raise-Fails _ (bad e)

  valid_url-Fails :
      (url : String) → ((s : String) → Q (invalid_redirect_uri s)) → Fails Q (valid_url env url)
  unfolding valid_url
  valid_url-Fails url bad = url_checked-Fails (env.providers.url_error url) bad

  reply_or-Fails :
      {A : Type 0} (e : String → OAuthError) (r : Reply A)
      → ((s : String) → Q (e s))
      → Fails Q (reply_or env e r)
  reply_or-Fails e (replied a) bad = pure-Fails a
  reply_or-Fails e (failed s) bad = raise-Fails _ (bad s)

  remote-Fails :
      {A : Type 0} (e : String → OAuthError) (call : ℕ → Reply A)
      → ((s : String) → Q (e s))
      → Fails Q (remote env e call)
  unfolding remote
  remote-Fails e call bad = search (fails_rules, reply_or-Fails)

  module _ (down : (s : String) → Q (provider_unreachable s)) where
    fetch_google_profile-Fails : (token : String) → Fails Q (fetch_google_profile env token)
    unfolding fetch_google_profile
    fetch_google_profile-Fails token = search (fails_rules, remote-Fails)

    module _ (partial : (s : String) → Q (incomplete_profile s)) where
      fetch_github_primary_email-Fails :
          (token : String) → Fails Q (fetch_github_primary_email env token)
      unfolding fetch_github_primary_email
      fetch_github_primary_email-Fails token = search (fails_rules, remote-Fails)

      email_or_primary-Fails :
          (token : String) (o : Option String) → Fails Q (email_or_primary env token o)
      unfolding email_or_primary
      email_or_primary-Fails token (some e) = pure-Fails e
      email_or_primary-Fails token none = fetch_github_primary_email-Fails token

      fetch_github_profile-Fails : (token : String) → Fails Q (fetch_github_profile env token)
      unfolding fetch_github_profile
      fetch_github_profile-Fails token = search (fails_rules, remote-Fails, email_or_primary-Fails)

      pub fetch_user_profile-Fails :
          (p : OAuthProvider) (token : String) → Fails Q (fetch_user_profile env p token)
      unfolding fetch_user_profile
      fetch_user_profile-Fails google token = fetch_google_profile-Fails token
      fetch_user_profile-Fails git_hub token = fetch_github_profile-Fails token

  module _ (pool : (s : String) → Q (state_store s))
      (redis : (s : String) → Q (state_store_redis s)) where
    get_connection-Fails : Fails Q (get_connection env)
    unfolding get_connection
    get_connection-Fails = record { at = λ w. Within-no_pool Q pool (env.pool_fault w.tick) w }

    command-Fails : {A : Type 0} (f : ℕ → S → A × S) → Fails Q (command env f)
    unfolding command
    command-Fails f = record { at = λ w. Within-run_command Q redis (env.command_fault w.tick) _ w }

    set_ex-Fails : (key value : String) (ttl : ℕ) → Fails Q (set_ex env key value ttl)
    unfolding set_ex
    set_ex-Fails key value ttl = command-Fails _

    get_del-Fails : (key : String) → Fails Q (get_del env key)
    unfolding get_del
    get_del-Fails key = command-Fails _

    insert-Fails : (s : String) (p : OAuthProvider) (v : String) → Fails Q (insert env s p v)
    unfolding insert
    insert-Fails s p v = search (fails_rules, get_connection-Fails, set_ex-Fails)

    pub store_exchange-Fails : (code payload : String) → Fails Q (store_exchange env code payload)
    unfolding store_exchange
    store_exchange-Fails code payload = search (fails_rules, get_connection-Fails, set_ex-Fails)

    pub take_exchange-Fails :
        (code : String) → Q exchange_code_invalid → Fails Q (take_exchange env code)
    unfolding take_exchange
    take_exchange-Fails code bad = search (fails_rules, get_connection-Fails, get_del-Fails)

    module _ (url : (s : String) → Q (invalid_redirect_uri s)) where
      pub build_authorization_url-Fails :
          (p : OAuthProvider) (cfg : OAuthProviderConfig)
          → Fails Q (build_authorization_url env p cfg)
      unfolding build_authorization_url
      build_authorization_url-Fails p cfg =
          search (fails_rules, valid_url-Fails, insert-Fails) depth 10

      module _ (bad : Q invalid_state)
          (mixed : (expected actual : OAuthProvider) → Q (provider_mismatch expected actual)) where
        read_state-Fails :
            (found : Option String) (p : OAuthProvider) → Fails Q (read_state env found p)
        unfolding read_state
        read_state-Fails found p = search fails_rules depth 9

        take-Fails : (s : String) (p : OAuthProvider) → Fails Q (take env s p)
        unfolding take
        take-Fails s p = search (fails_rules, get_connection-Fails, get_del-Fails, read_state-Fails)

        pub exchange_code-Fails :
            (p : OAuthProvider) (cfg : OAuthProviderConfig) (code s : String)
            → ((s : String) → Q (token_exchange s))
            → Fails Q (exchange_code env p cfg code s)
        unfolding exchange_code
        exchange_code-Fails p cfg code s refused =
            search (fails_rules, take-Fails, valid_url-Fails, remote-Fails) depth 9

pub ruleset oauth_fails = (
  fetch_user_profile-Fails, store_exchange-Fails, take_exchange-Fails,
  build_authorization_url-Fails, exchange_code-Fails,
)
