-- ===== src/Auth/Oauth.antt =====
-- services/auth.rs `login_or_register_oauth`: whose session a profile gets.
use yaima.Base.{suc, ◌≡◌, ap, ◌∙◌, true, Option, none, some, arith, ◌==◌, string_eq, nat_eq, find}
use mathlib.Core.Path.{subst}
use yaima.Config.{Config}
use yaima.Models.{
  Uuid, OffsetDateTime, User, LocalCredential, AuthResponse, provider_from, user_response,
}
use yaima.Errors.{database}
use yaima.External.{Env}
use yaima.Db.Inserts.{insert_user-IsNewUser}
use yaima.Db.{new_user, Db, joined_user, is_identity, select_user_by_identity}
use yaima.Program.{World}
use yaima.Program.Inversion.{
  Returns, after, after_sample, after_raise_if, pure-Returns, query-Returns, map_err-Returns,
}
use yaima.Users.{name_or_local_part, create_from_oauth, OAuthProfile, find_by_oauth_identity}
use yaima.Auth.{existing_or_new, resolve_user, login_or_register_oauth}
use yaima.Auth.Login.{answered_pair, find_by_email-Returns, issue_tokens-response}

-- The user that a profile is linked to.
abbrev pub linked_user : OAuthProfile → Db → Option User
linked_user profile db = joined_user db (
    find (is_identity (provider_from profile.provider) profile.provider_user_id)
      db.oauth_credentials)

-- Where the user of a profile comes from: its link; without one, its address; without either, it is
-- new.
pub data IsUserOf (profile : OAuthProfile) (db : Db) (u : User) : Type 0 where
  by_link : linked_user profile db ≡ some u → IsUserOf profile db u
  by_email :
      linked_user profile db ≡ none
      → find (λ u. u.email == profile.email) db.users ≡ some u
      → IsUserOf profile db u
  by_creation :
      linked_user profile db ≡ none
      → find (λ u. u.email == profile.email) db.users ≡ none
      → (at : OffsetDateTime) (id : Uuid)
      → u ≡ new_user at id profile.email (name_or_local_part profile.display_name profile.email)
      → IsUserOf profile db u

module _ {S : Type 0} (env : Env S) (config : Config) where
  -- What a login by a profile has established.
  pub record IsOauthLogin (profile : OAuthProfile) (db : Db) (r : AuthResponse) : Type 0 where
    pub user : User
    pub credential : Option LocalCredential
    pub origin : IsUserOf profile db user
    pub active : user.is_active ≡ true
    pub shown :
        r.user ≡ user_response env.rfc3339 (record { user = user; local_credential = credential })

  pub find_by_oauth_identity-Returns :
      (profile : OAuthProfile) (w : World S) (o : Option User) (w' : World S)
      → Returns (find_by_oauth_identity env profile.provider profile.provider_user_id) w o w'
      → (linked_user profile w.db ≡ o) × (w.db ≡ w'.db)
  unfolding find_by_oauth_identity select_user_by_identity
  find_by_oauth_identity-Returns profile w o w' h =
      answered_pair _ o w.db w'.db
        (query-Returns env _ w o w' (map_err-Returns database _ w o w' h))

  create_from_oauth-Returns :
      (profile : OAuthProfile) (w : World S) (u : User) (w' : World S)
      → Returns (create_from_oauth env profile.email profile.display_name) w u w'
      → (at : OffsetDateTime) × (id : Uuid) × (u
          ≡ new_user at id profile.email (name_or_local_part profile.display_name profile.email))
  unfolding create_from_oauth
  create_from_oauth-Returns profile w u w' h = after_sample w u w' env.uuid _ h λ h.
      let w₁ = record w { tick = suc w.tick } in
      let inserted = query-Returns env _ w₁ u w' (map_err-Returns _ _ w₁ u w' h) in
      (
        env.now w₁.tick,
        env.uuid w.tick,
        (insert_user-IsNewUser (env.now w₁.tick) (env.uuid w.tick) profile.email
            (name_or_local_part profile.display_name profile.email) w.db u w'.db inserted).is,
      )

  existing_or_new-IsUserOf :
      (profile : OAuthProfile) (db : Db) (existing : Option User) (w : World S) (u : User)
      (w' : World S)
      → linked_user profile db ≡ none
      → find (λ u. u.email == profile.email) db.users ≡ existing
      → Returns (existing_or_new env config profile existing) w u w'
      → IsUserOf profile db u
  unfolding existing_or_new
  existing_or_new-IsUserOf profile db (some x) w u w' unlinked found h =
      by_email unlinked (found ∙ ap some (pure-Returns x w u w' h).0)
  existing_or_new-IsUserOf profile db none w u w' unlinked found h =
      let (at, id, is) = create_from_oauth-Returns profile w u w' h in
      by_creation unlinked found at id is

  resolve_user-IsUserOf :
      (profile : OAuthProfile) (db : Db) (linked : Option User) (w : World S) (u : User)
      (w' : World S)
      → linked_user profile db ≡ linked
      → db ≡ w.db
      → Returns (resolve_user env config profile linked) w u w'
      → IsUserOf profile db u
  unfolding resolve_user
  resolve_user-IsUserOf profile db (some x) w u w' link same h =
      by_link (link ∙ ap some (pure-Returns x w u w' h).0)
  resolve_user-IsUserOf profile db none w u w' link same h =
      after w u w' _ _ h λ existing w₁ first h. after w₁ u w' _ _ h λ x w₂ second h.
        after w₂ u w' _ _ h λ _ w₃ third h.
          let (found, _) = find_by_email-Returns env config profile.email w existing w₁ first in
          let is = (pure-Returns x w₃ u w' h).0 in
          let origin : IsUserOf profile db x =
            existing_or_new-IsUserOf profile db existing w₁ x w₂ link
              (ap (λ (db : Db). find (λ u. u.email == profile.email) db.users) same ∙ found)
              second in
          subst (IsUserOf profile db) is origin

  -- A login by a profile that succeeds is of an active user, whom the profile is linked to; or, if it
  -- is not linked, who is stored with the profile's address; or, if there is neither, who is new;
  -- and the response shows that user.
  pub login_or_register_oauth-IsOauthLogin :
      (profile : OAuthProfile) (w : World S) (r : AuthResponse) (w' : World S)
      → Returns (login_or_register_oauth env config profile) w r w'
      → IsOauthLogin profile w.db r
  unfolding login_or_register_oauth
  login_or_register_oauth-IsOauthLogin profile w r w' h = after w r w' _ _ h λ linked w₁ first h.
      after w₁ r w' _ _ h λ user w₂ second h. after_raise_if w₂ r w' _ _ _ h λ active h.
        after w₂ r w' _ _ h λ credential w₃ third h.
          let (link, same) = find_by_oauth_identity-Returns profile w linked w₁ first in
          record {
            user = user;
            credential = credential;
            origin = resolve_user-IsUserOf profile w.db linked w₁ user w₂ link same second;
            active = ground arith;
            shown = (issue_tokens-response env config _ _ _ _ _ _ w₃ r w' h).0;
          }
