-- ===== src/Models.antt =====
-- The data of the program, models.rs: roles, claims, rows, requests and responses.
pub mod Roles
use yaima.Base.{ℕ, String, ◌≡◌, ◌↔◌, Bool, true, false, Option, none, some, arith, PartialEq, leb}
use yaima.Config.{OAuthProvider}

-- A 128-bit UUID, as its number.
abbrev pub Uuid : Type 0
Uuid = ℕ

-- `OffsetDateTime`: nanoseconds since the Unix epoch.
abbrev pub OffsetDateTime : Type 0
OffsetDateTime = ℕ

pub data Role : Type 0 where
  guest user admin : Role

pub data AuthMethod : Type 0 where
  password oauth : AuthMethod

pub record Claims : Type 0 where
  pub sub : Uuid
  pub iat : ℕ
  pub exp : ℕ
  pub email : String
  pub display_name : String
  pub role : Role
  pub auth_method : AuthMethod

abbrev pub default_auth_method : AuthMethod
default_auth_method = password

-- `Role::level`
abbrev pub level : Role → ℕ
level guest = 0
level user = 1
level admin = 2

unfoldable pub is_at_least : Role → Role → Bool
is_at_least r required = leb (level required) (level r)

-- `Provider`, the database's enum.
pub data Provider : Type 0 where
  google git_hub : Provider

abbrev pub provider_beq : Provider → Provider → Bool
provider_beq google google = true
provider_beq git_hub git_hub = true
provider_beq _ _ = false

pub provider_beq_iff : (p q : Provider) → (provider_beq p q ≡ true) ↔ (p ≡ q)
provider_beq_iff google google = ground arith
provider_beq_iff google git_hub = ground arith
provider_beq_iff git_hub google = ground arith
provider_beq_iff git_hub git_hub = ground arith

instance abbrev pub provider_eq : PartialEq Provider
provider_eq = record { beq = provider_beq; beq_means = provider_beq_iff }

-- `Provider::from`
abbrev pub provider_from : OAuthProvider → Provider
provider_from OAuthProvider.google = google
provider_from OAuthProvider.git_hub = git_hub

pub record OAuthConnection : Type 0 where
  pub provider : Provider
  pub provider_user_id : String
  pub created_at : String

pub record User : Type 0 where
  pub id : Uuid
  pub email : String
  pub display_name : String
  pub role : Role
  pub is_active : Bool
  pub created_at : OffsetDateTime
  pub updated_at : OffsetDateTime

pub record LocalCredential : Type 0 where
  pub user_id : Uuid
  pub username : String
  pub password_hash : String
  pub created_at : OffsetDateTime
  pub updated_at : OffsetDateTime

pub record RegisterRequest : Type 0 where
  pub email : String
  pub username : String
  pub password : String

pub record LoginRequest : Type 0 where
  pub email : String
  pub password : String

pub record RefreshRequest : Type 0 where
  pub refresh_token : String

pub record ChangePasswordRequest : Type 0 where
  pub current_password : String
  pub new_password : String

pub record ExchangeRequest : Type 0 where
  pub code : String

pub record UpdateRoleRequest : Type 0 where
  pub role : Role

pub record UserResponse : Type 0 where
  pub id : Uuid
  pub email : String
  pub display_name : String
  pub username : Option String
  pub role : Role
  pub has_local_credential : Bool
  pub created_at : String
  pub updated_at : String

pub record AuthResponse : Type 0 where
  pub access_token : String
  pub refresh_token : String
  pub expires_in : ℕ
  pub user : UserResponse

pub record UserView : Type 0 where
  pub user : User
  pub local_credential : Option LocalCredential

-- `.format(&Rfc3339).unwrap_or_default()`, over what the `time` crate's `format` gives.
abbrev pub formatted : Option String → String
formatted none = ""
formatted (some s) = s

abbrev username_of : Option LocalCredential → Option String
username_of none = none
username_of (some c) = some c.username

abbrev pub is_some {ℓ} : {A : Type ℓ} → Option A → Bool
is_some none = false
is_some (some a) = true

-- `UserResponse::from`, over `rfc3339`, the `time` crate's formatting.
abbrev pub user_response : (rfc3339 : OffsetDateTime → Option String) → UserView → UserResponse
user_response rfc3339 v = record {
  id = v.user.id;
  email = v.user.email;
  display_name = v.user.display_name;
  username = username_of v.local_credential;
  role = v.user.role;
  has_local_credential = is_some v.local_credential;
  created_at = formatted (rfc3339 v.user.created_at);
  updated_at = formatted (rfc3339 v.user.updated_at);
}

pub record MessageResponse : Type 0 where
  pub message : String
