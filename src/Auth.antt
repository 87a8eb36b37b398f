-- ===== src/Auth.antt =====
-- services/auth.rs and services/admin.rs: `AuthService` and `AdminService` on top of the users and
-- the tokens.
pub mod Keeps
pub mod Login
pub mod Issued
pub mod Oauth
pub mod Registration
pub mod Welcome
pub mod Links
pub mod Linked
pub mod Fails
use Prim.Native.String.{len}
use yaima.Base.{
  ℕ, String, Bool, true, false, not, ◌&&◌, Option, none, some, ltb, leb, if◌then◌else◌, ◌==◌,
  nat_eq, first_field,
}
use yaima.Config.{Config}
use yaima.Models.{
  Uuid, Role, AuthMethod, User, LocalCredential, AuthResponse, UserView, user_response,
}
use yaima.Errors.{AppError, invalid_credentials, account_disabled, forbidden}
use yaima.External.{Env}
use yaima.Program.{Action, pure, ok_or, raise_if, ◌>>=◌, ◌>>◌}
use yaima.Users.{
  OAuthProfile, verify_password, find_by_id, find_by_email, find_local_credential, create,
  create_from_oauth, update_role, find_by_oauth_identity, link_oauth_account,
}
use yaima.Tokens.{
  generate_access_token, create_refresh_token, rotate_refresh_token, revoke_all_user_tokens,
}

-- `validate_password`; `str::len` counts bytes.
abbrev pub too_short : String → Bool
too_short password = ltb (len password) 8

-- `validate_username`
abbrev pub bad_username : String → Bool
bad_username username = not (leb 3 (len username) && leb (len username) 32)

abbrev pub refreshed_method : Option LocalCredential → AuthMethod
refreshed_method none = AuthMethod.oauth
refreshed_method (some c) = AuthMethod.password

module _ {S : Type 0} (env : Env S) where
  -- `AdminService::update_user_role`
  unfoldable pub update_user_role : Uuid → Uuid → Role → Action S AppError User
  update_user_role admin_id target_id new_role = do
    raise_if (admin_id == target_id) forbidden
    update_role env target_id new_role

  module _ (config : Config) where
    unfoldable pub issue_tokens :
        Uuid → String → String → Role → AuthMethod → UserView → Action S AppError AuthResponse
    issue_tokens user_id email display_name role auth_method view = do
      access_token ← generate_access_token env config user_id email display_name role auth_method
      refresh_token ← create_refresh_token env config user_id
      pure (record {
        access_token = access_token;
        refresh_token = refresh_token;
        expires_in = config.access_token_expiry_secs;
        user = user_response env.rfc3339 view;
      })

    -- `issue_tokens` as `register`, `login` and `login_or_register_oauth` call it.
    abbrev pub issue_for :
        User → AuthMethod → Option LocalCredential → Action S AppError AuthResponse
    issue_for user auth_method credential =
        issue_tokens user.id user.email user.display_name user.role auth_method
          (record { user = user; local_credential = credential })

    -- `email.split('@').next()` is never `None`.
    unfoldable pub register : String → String → String → Action S AppError AuthResponse
    register email username password = do
      raise_if (too_short password) invalid_credentials
      raise_if (bad_username username) invalid_credentials
      account ← create env email (first_field b'@' email) username password
      issue_for account.0 AuthMethod.password (some account.1)

    unfoldable pub login : String → String → Action S AppError AuthResponse
    login email password = do
      found ← find_by_email env email
      user ← ok_or found invalid_credentials
      raise_if (not user.is_active) account_disabled
      stored ← find_local_credential env user.id
      credential ← ok_or stored invalid_credentials
      matches ← verify_password env password credential.password_hash
      raise_if (not matches) invalid_credentials
      issue_for user AuthMethod.password (some credential)

    -- `refresh` after the rotation.
    unfoldable pub complete_refresh : String × Uuid → Action S AppError AuthResponse
    complete_refresh rotated = do
      user ← find_by_id env rotated.1
      raise_if (not user.is_active) account_disabled
      credential ← find_local_credential env user.id
      access_token ←
          generate_access_token env config user.id user.email user.display_name user.role
            (refreshed_method credential)
      pure (record {
        access_token = access_token;
        refresh_token = rotated.0;
        expires_in = config.access_token_expiry_secs;
        user = user_response env.rfc3339 (record { user = user; local_credential = credential });
      })

    unfoldable pub refresh : String → Action S AppError AuthResponse
    refresh raw_refresh_token = do
      rotated ← rotate_refresh_token env config raw_refresh_token
      complete_refresh rotated

    unfoldable pub logout : Uuid → Action S AppError Unit
    logout user_id = revoke_all_user_tokens env config user_id

    -- The `match` on the e-mail address, when no link is known.
    unfoldable pub existing_or_new : OAuthProfile → Option User → Action S AppError User
    existing_or_new profile (some existing) = pure existing
    existing_or_new profile none = create_from_oauth env profile.email profile.display_name

    -- The user of a profile: by its link, by its e-mail address, or new; the last two are linked.
    unfoldable pub resolve_user : OAuthProfile → Option User → Action S AppError User
    resolve_user profile (some u) = pure u
    resolve_user profile none = do
      existing ← find_by_email env profile.email
      u ← existing_or_new profile existing
      link_oauth_account env u.id profile
      pure u

    unfoldable pub login_or_register_oauth : OAuthProfile → Action S AppError AuthResponse
    login_or_register_oauth profile = do
      linked ← find_by_oauth_identity env profile.provider profile.provider_user_id
      user ← resolve_user profile linked
      raise_if (not user.is_active) account_disabled
      credential ← find_local_credential env user.id
      issue_for user AuthMethod.oauth credential
