-- ===== src/Db/Schema.antt =====
-- The constraints of the schema, migrations/.
use yaima.Base.{
  String, ◌≡◌, ap, Bool, true, false, List, [], ◌∷◌, ◌++◌, ◌||◌, ◌==◌, nat_eq, string_eq, pair_eq,
  arith, if◌then◌else◌, update_where, has_key, All, IsUnique, All-map, any-append, any-update_where,
  ◌∙◌, not,
}
use yaima.Models.{Uuid, User, Provider, provider_eq}
use yaima.Db.{Db, OAuthCredential}

-- A row's `user_id` refers to a user.
abbrev pub IsOwned {ℓ} : {R : Type ℓ} → (R → Uuid) → List User → List R → Type 0
IsOwned user_id users = All (λ r. has_key (λ u. u.id) (user_id r) users ≡ true)

abbrev pub identity : OAuthCredential → Provider × String
identity oc = (oc.provider, oc.provider_user_id)

-- The primary keys, the `UNIQUE` constraints and the foreign keys of migrations/.
pub record IsConsistent (db : Db) : Type 0 where
  pub users_pkey : IsUnique (λ u. u.id) db.users
  pub users_email_key : IsUnique (λ u. u.email) db.users
  pub users_username_key : IsUnique (λ u. u.display_name) db.users
  pub credentials_pkey : IsUnique (λ c. c.user_id) db.local_credentials
  pub credentials_username_key : IsUnique (λ c. c.username) db.local_credentials
  pub credentials_owned : IsOwned (λ c. c.user_id) db.users db.local_credentials
  pub oauth_pkey : IsUnique (λ oc. oc.id) db.oauth_credentials
  pub oauth_identity_key : IsUnique identity db.oauth_credentials
  pub oauth_owned : IsOwned (λ oc. oc.user_id) db.users db.oauth_credentials
  pub tokens_pkey : IsUnique (λ t. t.id) db.refresh_tokens
  pub tokens_hash_key : IsUnique (λ t. t.token_hash) db.refresh_tokens
  pub tokens_lookup_key : IsUnique (λ t. t.lookup_key) db.refresh_tokens
  pub tokens_owned : IsOwned (λ t. t.user_id) db.users db.refresh_tokens

module _ {ℓ} {R : Type ℓ} (user_id : R → Uuid) where
  pub IsOwned-append_user :
      (users : List User) (u : User) (rs : List R)
      → IsOwned user_id users rs
      → IsOwned user_id (users ++ u ∷ []) rs
  IsOwned-append_user users u rs =
      All-map _ _ rs λ r h. any-append _ users u ∙ ap (λ b. b || (u.id == user_id r)) h

  -- An update of users that keeps their ids.
  pub IsOwned-update_users :
      (q : User → Bool) (f : User → User) (users : List User) (rs : List R)
      → ((u : User) → (f u).id ≡ u.id)
      → IsOwned user_id users rs
      → IsOwned user_id (update_where q f users) rs
  IsOwned-update_users q f users rs same =
      All-map _ _ rs
        λ r h. any-update_where _ q f users (λ u. ap (λ k. k == user_id r) (same u)) ∙ h

  -- An update of rows that keeps their owners.
  pub IsOwned-update :
      (q : R → Bool) (f : R → R) (users : List User) (rs : List R)
      → ((r : R) → user_id (f r) ≡ user_id r)
      → IsOwned user_id users rs
      → IsOwned user_id users (update_where q f rs)
  IsOwned-update q f users [] same h = tt
  IsOwned-update q f users (r ∷ rs) same h = (
    elim (q r) as (λ b. has_key (λ u. u.id) (user_id (if b then f r else r)) users ≡ true) [
      | true ↦ rw same h.0
      | false ↦ h.0
    ],
    IsOwned-update q f users rs same h.1,
  )

pub owner_found : (b : Bool) → not b ≡ false → b ≡ true
owner_found b h = ground arith
