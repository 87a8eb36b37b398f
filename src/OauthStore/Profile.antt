-- ===== src/OauthStore/Profile.antt =====
-- services/oauth.rs: the address that a GitHub profile gets.
use yaima.Base.{ℕ, String, ◌≡◌, ap, refl, true, Option, none, some, List, arith, find, find-eq-some}
use yaima.Errors.{OAuthError}
use yaima.External.{Env, GitHubEmail, Reply, replied, failed}
use yaima.Program.{World}
use yaima.Program.Inversion.{Returns, after, after_sample, ok_or-Returns, pure-Returns, not_raise}
use yaima.OauthStore.{is_usable, usable_email, reply_or, remote, fetch_github_primary_email}

module _ {S : Type 0} (env : Env S) where
  -- What GitHub was asked and answered, and the entry that was chosen.
  pub record IsPrimary (access_token email : String) : Type 0 where
    pub at : ℕ
    pub emails : List GitHubEmail
    pub answered : env.providers.github_emails at access_token ≡ replied emails
    pub entry : GitHubEmail
    pub is_first : find is_usable emails ≡ some entry
    pub address : entry.email ≡ email
    pub primary : entry.primary ≡ true
    pub verified : entry.verified ≡ true

  reply_or-Returns :
      {A : Type 0} (e : String → OAuthError) (r : Reply A) (w : World S) (a : A) (w' : World S)
      → Returns (reply_or env e r) w a w'
      → r ≡ replied a
  reply_or-Returns e (replied b) w a w' h = ap replied (pure-Returns b w a w' h).0
  reply_or-Returns e (failed s) w a w' h = not_raise w a w' _ h

  remote-Returns :
      {A : Type 0} (e : String → OAuthError) (call : ℕ → Reply A) (w : World S) (a : A)
      (w' : World S)
      → Returns (remote env e call) w a w'
      → call w.tick ≡ replied a
  unfolding remote
  remote-Returns e call w a w' h =
      after_sample w a w' call _ h λ h. reply_or-Returns e (call w.tick) _ a w' h

  usable_email-some :
      (o : Option GitHubEmail) (s : String)
      → usable_email env o ≡ some s
      → (e : GitHubEmail) × (o ≡ some e) × (e.email ≡ s)
  usable_email-some none s h = cc
  usable_email-some (some e) s h = (e, refl, cc)

  -- The address that `fetch_github_primary_email` returns is that of the first entry of GitHub's
  -- answer that is both primary and verified.
  pub fetch_github_primary_email-IsPrimary :
      (access_token : String) (w : World S) (email : String) (w' : World S)
      → Returns (fetch_github_primary_email env access_token) w email w'
      → IsPrimary access_token email
  unfolding fetch_github_primary_email
  fetch_github_primary_email-IsPrimary access_token w email w' h =
      after w email w' _ _ h λ emails w₁ first h.
        let (chosen, _) = ok_or-Returns _ _ w₁ email w' h in
        let (entry, is_first, address) = usable_email-some _ email chosen in
        let usable = find-eq-some is_usable emails entry is_first in
        record {
          at = w.tick;
          emails = emails;
          answered = remote-Returns _ _ w emails w₁ first;
          entry = entry;
          is_first = is_first;
          address = address;
          primary = ground (arith, usable);
          verified = ground (arith, usable);
        }
