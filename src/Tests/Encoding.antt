-- ===== src/Tests/Encoding.antt =====
-- Texts that pack fields and give them back: what serde_json and jsonwebtoken are in the tests.
use Prim.Native.Char.{Char, code}
use mathlib.Core.Path.{subst}
use yaima.Base.{
  ltb, arith, ◌≤◌, ℕ, zero, suc, String, ◌≡◌, refl, ap, ◌∙◌, Option, none, some, ◌==◌, nat_eq,
  if◌then◌else◌, string_eq, Bool, true, false,
}
use yaima.Models.{
  Role, guest, user, admin, AuthMethod, password, oauth, Claims, UserResponse, AuthResponse,
}
use yaima.External.{Jwt, Decoded, decoded, other_kind, expired_signature, StoredPendingAuth}
use yaima.Tokens.Access.{IsJwt}

-- A field, each of its characters behind a dot, then a colon.
abbrev pub packed : String → String → String
packed String.[] rest = String.◌∷◌ ":" rest
packed (String.◌∷◌ x s) rest = String.◌∷◌ "." (String.◌∷◌ x (packed s rest))

abbrev prepended : Char → Option (String × String) → Option (String × String)
prepended x none = none
prepended x (some (s, rest)) = some (String.◌∷◌ x s, rest)

abbrev pub unpacked : String → Option (String × String)
unpacked String.[] = none
unpacked (String.◌∷◌ c String.[]) = if code c == b':' then some ("", "") else none
unpacked (String.◌∷◌ c (String.◌∷◌ d s)) =
    let rest = unpacked s in if code c == b':' then some ("", String.◌∷◌ d s) else prepended d rest

pub unpacked-packed : (s rest : String) → unpacked (packed s rest) ≡ some (s, rest)
unpacked-packed String.[] String.[] = refl
unpacked-packed String.[] (String.◌∷◌ d s) = refl
unpacked-packed (String.◌∷◌ x s) rest = ap (prepended x) (unpacked-packed s rest)

-- The value of the field that a text starts with, and what follows it.
abbrev pub then_field :
    {A : Type 0} → Option (String × String) → (String → String → Option A) → Option A
then_field none k = none
then_field (some (s, rest)) k = k s rest

abbrev pub pending_to_string : StoredPendingAuth → String
pending_to_string p = packed p.provider (packed p.verifier_secret "")

abbrev pub pending_from_str : String → Option StoredPendingAuth
pending_from_str s = then_field (unpacked s) λ provider s.
    then_field (unpacked s)
      λ verifier s. some (record { verifier_secret = verifier; provider = provider })

pub pending_round : (x : StoredPendingAuth) → pending_from_str (pending_to_string x) ≡ some x
pending_round x =
    simp (
      unpacked-packed x.provider (packed x.verifier_secret ""),
      unpacked-packed x.verifier_secret "",
    )

-- A number as so many strokes.
abbrev strokes : ℕ → String
strokes zero = ""
strokes (suc n) = String.◌∷◌ "|" (strokes n)

abbrev counted : String → ℕ
counted String.[] = zero
counted (String.◌∷◌ c s) = suc (counted s)

counted-strokes : (n : ℕ) → counted (strokes n) ≡ n
counted-strokes zero = refl
counted-strokes (suc n) = ap suc (counted-strokes n)

abbrev role_mark : Role → String
role_mark guest = "guest"
role_mark user = "user"
role_mark admin = "admin"

abbrev marked_role : String → Role
marked_role s = if s == "guest" then guest else if s == "user" then user else admin

abbrev method_mark : AuthMethod → String
method_mark password = "password"
method_mark oauth = "oauth"

abbrev marked_method : String → AuthMethod
marked_method s = if s == "password" then password else oauth

role_round : (r : Role) → marked_role (role_mark r) ≡ r
role_round guest = refl
role_round user = refl
role_round admin = refl

method_round : (m : AuthMethod) → marked_method (method_mark m) ≡ m
method_round password = refl
method_round oauth = refl

abbrev signed : Claims → String
signed c = packed (strokes c.sub) (
    packed (strokes c.iat) (
      packed (strokes c.exp) (
        packed c.email (
          packed c.display_name
            (packed (role_mark c.role) (packed (method_mark c.auth_method) ""))))))

abbrev read : String → Option Claims
read s = then_field (unpacked s) λ sub s. then_field (unpacked s) λ iat s.
    then_field (unpacked s) λ exp s. then_field (unpacked s) λ email s.
      then_field (unpacked s) λ display_name s. then_field (unpacked s) λ role s.
        then_field (unpacked s) λ m s. some (record {
          sub = counted sub;
          iat = counted iat;
          exp = counted exp;
          email = email;
          display_name = display_name;
          role = marked_role role;
          auth_method = marked_method m;
        })

read-signed : (c : Claims) → read (signed c) ≡ some c
read-signed c = simp (unpacked-packed, counted-strokes, role_round, method_round)

abbrev judged : ℕ → Option Claims → Decoded
judged now none = other_kind
judged now (some c) = if ltb c.exp now then expired_signature else decoded c

-- A `jsonwebtoken` without signatures.
abbrev pub packing_jwt : Jwt
packing_jwt = record {
  encode = λ secret claims. some (signed claims);
  decode = λ now secret token. judged now (read token);
}

same_token : (s t : String) → some s ≡ some t → s ≡ t
same_token s t h = cc

judged-young : (now : ℕ) (c : Claims) → now ≤ c.exp → judged now (some c) ≡ decoded c
judged-young now c young = ground arith

pub packing_jwt-IsJwt : IsJwt packing_jwt
packing_jwt-IsJwt = record {
  decode-encode = λ secret token claims now encoded young.
      subst (λ t. judged now (read t) ≡ decoded claims) (same_token (signed claims) token encoded)
        (ap (judged now) (read-signed claims) ∙ judged-young now claims young);
}

abbrev option_mark : Option String → String
option_mark none = "none"
option_mark (some s) = String.◌∷◌ "+" s

abbrev marked_option : String → Option String
marked_option String.[] = none
marked_option (String.◌∷◌ c s) = if code c == b'+' then some s else none

option_round : (o : Option String) → marked_option (option_mark o) ≡ o
option_round none = refl
option_round (some s) = refl

abbrev bool_mark : Bool → String
bool_mark true = "true"
bool_mark false = "false"

abbrev marked_bool : String → Bool
marked_bool s = s == "true"

bool_round : (b : Bool) → marked_bool (bool_mark b) ≡ b
bool_round true = refl
bool_round false = refl

abbrev user_text : UserResponse → String
user_text u = packed (strokes u.id) (
    packed u.email (
      packed u.display_name (
        packed (option_mark u.username) (
          packed (role_mark u.role) (
            packed (bool_mark u.has_local_credential)
              (packed u.created_at (packed u.updated_at "")))))))

abbrev user_from : String → Option UserResponse
user_from s = then_field (unpacked s) λ id s. then_field (unpacked s) λ email s.
    then_field (unpacked s) λ display_name s. then_field (unpacked s) λ username s.
      then_field (unpacked s) λ role s. then_field (unpacked s) λ has s.
        then_field (unpacked s) λ created s. then_field (unpacked s) λ updated s. some (record {
          id = counted id;
          email = email;
          display_name = display_name;
          username = marked_option username;
          role = marked_role role;
          has_local_credential = marked_bool has;
          created_at = created;
          updated_at = updated;
        })

user_round : (u : UserResponse) → user_from (user_text u) ≡ some u
user_round u = simp (unpacked-packed, counted-strokes, option_round, role_round, bool_round)

abbrev pub auth_to_string : AuthResponse → String
auth_to_string a =
    packed a.access_token
      (packed a.refresh_token (packed (strokes a.expires_in) (user_text a.user)))

abbrev with_user : String → String → ℕ → Option UserResponse → Option AuthResponse
with_user access refresh expires none = none
with_user access refresh expires (some u) =
    some (record { access_token = access; refresh_token = refresh; expires_in = expires; user = u })

abbrev pub auth_from_str : String → Option AuthResponse
auth_from_str s = then_field (unpacked s) λ access s. then_field (unpacked s) λ refresh s.
    then_field (unpacked s) λ expires s. with_user access refresh (counted expires) (user_from s)

pub auth_round : (a : AuthResponse) → auth_from_str (auth_to_string a) ≡ some a
auth_round a = simp (
  unpacked-packed a.access_token
      (packed a.refresh_token (packed (strokes a.expires_in) (user_text a.user))),
  unpacked-packed a.refresh_token (packed (strokes a.expires_in) (user_text a.user)),
  unpacked-packed (strokes a.expires_in) (user_text a.user),
  counted-strokes,
  user_round,
)
