-- ===== src/OauthStore/Keeps.antt =====
-- The OAuth functions of services/oauth.rs leave the database alone.
use yaima.Base.{ℕ, String, Option, none, some}
use yaima.Config.{OAuthProvider, google, git_hub, OAuthProviderConfig}
use yaima.Errors.{OAuthError}
use yaima.External.{Env, Reply, replied, failed}
use yaima.Db.{Db}
use yaima.Program.{World}
use yaima.Program.Keeps.{Keeps, pure-Keeps, raise-Keeps, keeps_rules}
use yaima.OauthStore.{
  no_pool, run_command, url_checked, reply_or, get_connection, command, set_ex, get_del, insert,
  read_state, take, store_exchange, take_exchange, valid_url, build_authorization_url, remote,
  exchange_code, fetch_google_profile, fetch_github_primary_email, email_or_primary,
  fetch_github_profile, fetch_user_profile,
}

module _ {S : Type 0} {P : Db → Type 0} (env : Env S) where
  get_connection-Keeps : Keeps P (get_connection env)
  unfolding get_connection
  get_connection-Keeps = record { at = λ w h. go (env.pool_fault w.tick) w h }
    where
      go : (fault : Option String) (w : World S) → P w.db → P (no_pool fault w).1.db
      go none w h = h
      go (some e) w h = h

  command-Keeps : {A : Type 0} (f : ℕ → S → A × S) → Keeps P (command env f)
  unfolding command
  command-Keeps {A} f = record { at = λ w h. go (env.command_fault w.tick) (f _) w h }
    where
      go :
          (fault : Option String) (f : S → A × S) (w : World S)
          → P w.db
          → P (run_command fault f w).1.db
      go none f w h = h
      go (some e) f w h = h

  valid_url-Keeps : (url : String) → Keeps P (valid_url env url)
  unfolding valid_url
  valid_url-Keeps url = go (env.providers.url_error url)
    where
      go : (e : Option String) → Keeps P (url_checked env e)
      go none = pure-Keeps tt
      go (some e) = raise-Keeps _

  reply_or-Keeps : {A : Type 0} (e : String → OAuthError) (r : Reply A) → Keeps P (reply_or env e r)
  reply_or-Keeps e (replied a) = pure-Keeps a
  reply_or-Keeps e (failed s) = raise-Keeps (e s)

  remote-Keeps :
      {A : Type 0} (e : String → OAuthError) (call : ℕ → Reply A) → Keeps P (remote env e call)
  unfolding remote
  remote-Keeps e call = search (keeps_rules, reply_or-Keeps)

  set_ex-Keeps : (k v : String) (ttl : ℕ) → Keeps P (set_ex env k v ttl)
  unfolding set_ex
  set_ex-Keeps k v ttl = search (command-Keeps)

  get_del-Keeps : (k : String) → Keeps P (get_del env k)
  unfolding get_del
  get_del-Keeps k = search (command-Keeps)

  pub insert-Keeps : (s : String) (p : OAuthProvider) (v : String) → Keeps P (insert env s p v)
  unfolding insert
  insert-Keeps s p v = search (keeps_rules, get_connection-Keeps, set_ex-Keeps)

  pub take-Keeps : (s : String) (p : OAuthProvider) → Keeps P (take env s p)
  unfolding take read_state
  take-Keeps s p = search (keeps_rules, get_connection-Keeps, get_del-Keeps) depth 9

  pub store_exchange-Keeps : (c p : String) → Keeps P (store_exchange env c p)
  unfolding store_exchange
  store_exchange-Keeps c p = search (keeps_rules, get_connection-Keeps, set_ex-Keeps)

  pub take_exchange-Keeps : (c : String) → Keeps P (take_exchange env c)
  unfolding take_exchange
  take_exchange-Keeps c = search (keeps_rules, get_connection-Keeps, get_del-Keeps)

  pub build_authorization_url-Keeps :
      (p : OAuthProvider) (cfg : OAuthProviderConfig) → Keeps P (build_authorization_url env p cfg)
  unfolding build_authorization_url
  build_authorization_url-Keeps p cfg = search (keeps_rules, valid_url-Keeps, insert-Keeps) depth 10

  pub exchange_code-Keeps :
      (p : OAuthProvider) (cfg : OAuthProviderConfig) (code state : String)
      → Keeps P (exchange_code env p cfg code state)
  unfolding exchange_code
  exchange_code-Keeps p cfg code state =
      search (keeps_rules, take-Keeps, valid_url-Keeps, remote-Keeps) depth 9

  fetch_google_profile-Keeps : (t : String) → Keeps P (fetch_google_profile env t)
  unfolding fetch_google_profile
  fetch_google_profile-Keeps t = search (keeps_rules, remote-Keeps)

  fetch_github_primary_email-Keeps : (t : String) → Keeps P (fetch_github_primary_email env t)
  unfolding fetch_github_primary_email
  fetch_github_primary_email-Keeps t = search (keeps_rules, remote-Keeps)

  email_or_primary-Keeps : (t : String) (e : Option String) → Keeps P (email_or_primary env t e)
  unfolding email_or_primary
  email_or_primary-Keeps t (some e) = pure-Keeps e
  email_or_primary-Keeps t none = fetch_github_primary_email-Keeps t

  fetch_github_profile-Keeps : (t : String) → Keeps P (fetch_github_profile env t)
  unfolding fetch_github_profile
  fetch_github_profile-Keeps t = search (keeps_rules, remote-Keeps, email_or_primary-Keeps)

  pub fetch_user_profile-Keeps :
      (p : OAuthProvider) (t : String) → Keeps P (fetch_user_profile env p t)
  unfolding fetch_user_profile
  fetch_user_profile-Keeps google t = fetch_google_profile-Keeps t
  fetch_user_profile-Keeps git_hub t = fetch_github_profile-Keeps t

pub ruleset oauth_rules = (
  take_exchange-Keeps, store_exchange-Keeps, build_authorization_url-Keeps, exchange_code-Keeps,
  fetch_user_profile-Keeps,
)
