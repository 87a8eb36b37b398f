-- ===== src/Auth/Linked.antt =====
-- services/auth.rs `login_or_register_oauth`: the link that it leaves.
use mathlib.Core.Path.{subst}
use yaima.Base.{
  ℕ, suc, ◌≡◌, refl, ap, sym, ◌∙◌, false, Option, none, some, find, any, ◌==◌, string_eq, nat_eq,
  IsUnique,
}
use yaima.Config.{Config}
use yaima.Models.{User, provider_eq, LocalCredential, AuthResponse, user_response}
use yaima.External.{Env}
use yaima.Db.{Db, OAuthCredential, joined_user, select_user_by_identity}
use yaima.Db.Statements.{Leaves}
use yaima.Db.Schema.{IsConsistent}
use yaima.Db.Consistent.{IsConsistent-statements}
use yaima.Db.Inserts.{insert_user-IsNewUser}
use yaima.Program.{World, ok, map_err, query}
use yaima.Program.Inversion.{
  Returns, after, after_sample, after_raise_if, pure-Returns, query-Returns, map_err-Returns,
  Keeps-Returns,
}
use yaima.Users.{OAuthProfile, create_from_oauth, link_oauth_account, find_by_oauth_identity}
use yaima.Users.Keeps.{create_from_oauth-Keeps}
use yaima.Tokens.Registry.Table.{find_by_key, find-append_unique}
use yaima.Auth.{existing_or_new, resolve_user, login_or_register_oauth}
use yaima.Auth.Login.{find_by_email-Returns, find_local_credential-Returns, issue_tokens-response}
use yaima.Auth.Oauth.{linked_user, find_by_oauth_identity-Returns}
use yaima.Auth.Links.{is_of, by_id, unlinked_none, Leaves-linked}
use yaima.Auth.Welcome.{SameAccounts, Leaves-answered, issue_tokens-SameAccounts}

module _ {S : Type 0} (env : Env S) (config : Config) where
  link-linked :
      (profile : OAuthProfile) (u : User) (w : World S) (x : Unit) (w' : World S)
      → by_id u.id w.db ≡ some u
      → any (is_of profile) w.db.oauth_credentials ≡ false
      → Returns (link_oauth_account env u.id profile) w x w'
      → linked_user profile w'.db ≡ some u
  unfolding link_oauth_account
  link-linked profile u w x w' stored absent h = after_sample w x w' _ _ h λ h.
      let inserted =
        query-Returns env _ (record w { tick = suc w.tick }) x w' (map_err-Returns _ _ _ x w' h) in
      Leaves-answered (
        subst (Leaves (λ db. linked_user profile db ≡ some u)) inserted
          (Leaves-linked profile w.db u _ stored refl refl refl absent))

  create_from_oauth-stored :
      (profile : OAuthProfile) (w : World S) (u : User) (w' : World S)
      → IsConsistent w'.db
      → Returns (create_from_oauth env profile.email profile.display_name) w u w'
      → (by_id u.id w'.db ≡ some u) × (w'.db.oauth_credentials ≡ w.db.oauth_credentials)
  unfolding create_from_oauth
  create_from_oauth-stored profile w u w' c' h = after_sample w u w' env.uuid _ h λ h.
      let w₁ = record w { tick = suc w.tick } in
      let inserted = query-Returns env _ w₁ u w' (map_err-Returns _ _ w₁ u w' h) in
      let new = insert_user-IsNewUser _ _ _ _ w.db u w'.db inserted in
      let users = ap (λ (db : Db). db.users) new.stored in
      let last =
        find-append_unique {K = ℕ} (λ u. u.id) w.db.users u
          (subst (IsUnique (λ (u : User). u.id)) users c'.users_pkey) in
      (
        subst (λ us. find (λ x. x.id == u.id) us ≡ some u) (sym users) last,
        ap (λ (db : Db). db.oauth_credentials) new.stored,
      )

  -- The user that is found or made is stored, and no link is touched.
  existing_or_new-stored :
      (profile : OAuthProfile) (existing : Option User) (w : World S) (u : User) (w' : World S)
      → IsConsistent w.db
      → find (λ u. u.email == profile.email) w.db.users ≡ existing
      → Returns (existing_or_new env config profile existing) w u w'
      → (by_id u.id w'.db ≡ some u) × (w'.db.oauth_credentials ≡ w.db.oauth_credentials)
  unfolding existing_or_new
  existing_or_new-stored profile (some x) w u w' c found h =
      let (is, same) = pure-Returns x w u w' h in
      let stored =
        find_by_key {K = ℕ} (λ u. u.id) (λ u. u.email == profile.email) w.db.users x c.users_pkey
          found in
      (
        subst (λ (x : World S). by_id u.id x.db ≡ some u) same
            (subst (λ y. by_id y.id w.db ≡ some y) is stored),
        ap (λ (x : World S). x.db.oauth_credentials) (sym same),
      )
  existing_or_new-stored profile none w u w' c found h =
      let c' =
        Keeps-Returns _ w u w'
          (create_from_oauth-Keeps IsConsistent-statements env profile.email profile.display_name) h
          c in
      create_from_oauth-stored profile w u w' c' h

  resolve_user-linked :
      (profile : OAuthProfile) (linked : Option User) (w : World S) (u : User) (w' : World S)
      → IsConsistent w.db
      → linked_user profile w.db ≡ linked
      → Returns (resolve_user env config profile linked) w u w'
      → linked_user profile w'.db ≡ some u
  unfolding resolve_user
  resolve_user-linked profile (some x) w u w' c link h =
      let (is, same) = pure-Returns x w u w' h in
      subst (λ (y : World S). linked_user profile y.db ≡ some u) same (link ∙ ap some is)
  resolve_user-linked profile none w u w' c link h = after w u w' _ _ h λ existing w₁ first h.
      after w₁ u w' _ _ h λ x w₂ second h. after w₂ u w' _ _ h λ tied w₃ third h.
        let (found, same) = find_by_email-Returns env config profile.email w existing w₁ first in
        let (is, left) = pure-Returns x w₃ u w' h in
        let found₁ : find (λ u. u.email == profile.email) w₁.db.users ≡ existing =
          subst (λ (db : Db). find (λ u. u.email == profile.email) db.users ≡ existing) same
            found in
        let (stored, links) =
          existing_or_new-stored profile existing w₁ x w₂ (subst IsConsistent same c) found₁
            second in
        let absent : any (is_of profile) w₂.db.oauth_credentials ≡ false =
          ap (any (is_of profile)) (links ∙ ap (λ (db : Db). db.oauth_credentials) (sym same))
          ∙ unlinked_none profile w.db c link in
        subst (λ (y : World S). linked_user profile y.db ≡ some u) left
          (subst (λ y. linked_user profile w₃.db ≡ some y) is
            (link-linked profile x w₂ tied w₃ stored absent third))

  linked-SameAccounts :
      (profile : OAuthProfile) (before after : Db)
      → SameAccounts before after
      → linked_user profile after ≡ linked_user profile before
  linked-SameAccounts profile before after (users, _, links) =
      ap (λ ocs. joined_user after (find (is_of profile) ocs)) links
      ∙ joined_same (find (is_of profile) before.oauth_credentials)
    where
      joined_same : (o : Option OAuthCredential) → joined_user after o ≡ joined_user before o
      joined_same none = refl
      joined_same (some oc) = ap (λ us. find (λ u. u.id == oc.user_id) us) users

  -- The account that a profile is bound to.
  pub record IsBound (profile : OAuthProfile) (r : AuthResponse) (w : World S) : Type 0 where
    pub user : User
    pub credential : Option LocalCredential
    pub shown :
        r.user ≡ user_response env.rfc3339 (record { user = user; local_credential = credential })
    pub found_again :
        (find_by_oauth_identity env profile.provider profile.provider_user_id w).0 ≡ ok (some user)

  find_again :
      (profile : OAuthProfile) (u : User) (w : World S)
      → env.sql_fault w.tick ≡ none
      → linked_user profile w.db ≡ some u
      → (find_by_oauth_identity env profile.provider profile.provider_user_id w).0 ≡ ok (some u)
  unfolding find_by_oauth_identity select_user_by_identity map_err query
  find_again profile u w clear link = simp (clear, link)

  -- After a login by a profile that succeeds, in a database that meets the constraints of the schema,
  -- the profile's identity is linked to the user that the response shows, whether the link was there,
  -- or the user was found by the address or made: the lookup of the next login finds that user by the
  -- link, if it does not fail.
  pub login_or_register_oauth-IsBound :
      (profile : OAuthProfile) (w : World S) (r : AuthResponse) (w' : World S)
      → IsConsistent w.db
      → env.sql_fault w'.tick ≡ none
      → Returns (login_or_register_oauth env config profile) w r w'
      → IsBound profile r w'
  unfolding login_or_register_oauth
  login_or_register_oauth-IsBound profile w r w' c clear h = after w r w' _ _ h λ linked w₁ first h.
      after w₁ r w' _ _ h λ user w₂ second h. after_raise_if w₂ r w' _ _ _ h λ active h.
        after w₂ r w' _ _ h λ credential w₃ third h.
          let (link, same) = find_by_oauth_identity-Returns env config profile w linked w₁ first in
          let (_, same') =
            find_local_credential-Returns env config user.id w₂ credential w₃ third in
          let kept = issue_tokens-SameAccounts env config _ _ _ _ _ _ w₃ r w' h in
          let link₁ : linked_user profile w₁.db ≡ linked =
            subst (λ db. linked_user profile db ≡ linked) same link in
          let bound =
            resolve_user-linked profile linked w₁ user w₂ (subst IsConsistent same c) link₁
              second in
          record {
            user = user;
            credential = credential;
            shown = (issue_tokens-response env config _ _ _ _ _ _ w₃ r w' h).0;
            found_again = find_again profile user w' clear (
                linked-SameAccounts profile w₃.db w'.db kept
                ∙ ap (linked_user profile) (sym same')
                ∙ bound);
          }
