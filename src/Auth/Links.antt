-- ===== src/Auth/Links.antt =====
-- services/user.rs `link_oauth_account` on the tables: when an identity has no link, and what an insert of
-- one makes of it.
use yaima.Base.{
  ◌≡◌, refl, ap, sym, ◌∙◌, Bool, true, false, Option, none, some, inl, inr, Option-cases, find, any,
  ◌==◌, string_eq, nat_eq, ◌++◌, [], ◌∷◌, List, beq_refl, has_key, All-find, find-eq-none,
  find-append_new, if◌then◌else◌,
}
use yaima.Models.{Uuid, User, provider_eq, provider_from}
use yaima.Db.{
  Db, Answer, answered, OAuthCredential, is_identity, joined_user, insert_oauth_credential,
}
use yaima.Db.Statements.{Leaves, leaves, Leaves-if}
use yaima.Db.Schema.{IsConsistent}
use yaima.Users.{OAuthProfile}
use yaima.Auth.Oauth.{linked_user}

-- The test for the identity of a profile.
abbrev pub is_of : OAuthProfile → OAuthCredential → Bool
is_of profile = is_identity (provider_from profile.provider) profile.provider_user_id

abbrev pub by_id : Uuid → Db → Option User
by_id id db = find (λ u. u.id == id) db.users

has_user :
    (id : Uuid) (us : List User)
    → find (λ u. u.id == id) us ≡ none
    → has_key (λ u. u.id) id us ≡ false
has_user id us h = find-eq-none (λ u. u.id == id) us h

-- In a database that meets the constraints, a profile without a user has no link.
pub unlinked_none :
    (profile : OAuthProfile) (db : Db)
    → IsConsistent db
    → linked_user profile db ≡ none
    → any (is_of profile) db.oauth_credentials ≡ false
unlinked_none profile db c h = elim (Option-cases (find (is_of profile) db.oauth_credentials)) [
  | inl absent ↦ find-eq-none (is_of profile) db.oauth_credentials absent
  | inr (oc, found) ↦
      (let owned =
          All-find (λ oc. has_key (λ u. u.id) oc.user_id db.users ≡ true) (is_of profile)
            db.oauth_credentials oc c.oauth_owned found in
        let missing : by_id oc.user_id db ≡ none = sym (ap (joined_user db) found) ∙ h in
        let lost = has_user oc.user_id db.users missing in cc)
]

-- A test that does not end the statement.
Leaves-past :
    {A : Type 0} {P : Db → Type 0} (b : Bool) (m n : Answer A)
    → b ≡ false
    → Leaves P n
    → Leaves P (if b then m else n)
Leaves-past b m n off l = rw off l

-- An insert of a link that is not there yet links its user.
module _ (profile : OAuthProfile) (db : Db) (u : User) (oc : OAuthCredential)
    (stored : by_id u.id db ≡ some u) (provider : oc.provider ≡ provider_from profile.provider)
    (identity : oc.provider_user_id ≡ profile.provider_user_id) (owner : oc.user_id ≡ u.id) where
  is_of_itself : is_of profile oc ≡ true
  is_of_itself =
      rw
        (
          provider,
          identity,
          beq_refl (provider_from profile.provider),
          beq_refl profile.provider_user_id,
        )
        refl

  linked_now :
      any (is_of profile) db.oauth_credentials ≡ false
      → linked_user profile (record db { oauth_credentials = db.oauth_credentials ++ oc ∷ [] })
        ≡ some u
  linked_now absent =
      ap (joined_user db) (
        find-append_new (is_of profile) db.oauth_credentials oc absent
        ∙ ap (λ b. if b then some oc else none) is_of_itself)
      ∙ ap (λ i. by_id i db) owner
      ∙ stored

  Leaves-now :
      any (is_of profile) db.oauth_credentials ≡ false
      → Leaves
          (λ db. linked_user profile db ≡ some u)
          (answered tt (record db { oauth_credentials = db.oauth_credentials ++ oc ∷ [] }))
  Leaves-now absent = leaves (linked_now absent)

  pub Leaves-linked :
      any (is_of profile) db.oauth_credentials ≡ false
      → Leaves (λ db. linked_user profile db ≡ some u) (insert_oauth_credential oc db)
  unfolding insert_oauth_credential
  Leaves-linked absent =
      let own : any (is_identity oc.provider oc.provider_user_id) db.oauth_credentials ≡ false =
        ap (λ p. any (is_identity p oc.provider_user_id) db.oauth_credentials) provider
        ∙ ap (λ i. any (is_identity (provider_from profile.provider) i) db.oauth_credentials)
            identity
        ∙ absent in
      search (Leaves-past, own, Leaves-if, Leaves-now absent)
