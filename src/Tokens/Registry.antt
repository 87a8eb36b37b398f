-- ===== src/Tokens/Registry.antt =====
-- An abstract view of the table `refresh_tokens`: what each lookup key is worth. A key is absent,
-- live for a user, or spent; a step issues an absent key, spends a live one, or spends all of a user.
pub mod Table
pub mod Statements
pub mod Changes
pub mod Refinement
pub mod Operations
use yaima.Base.{
  String, ◌≡◌, Bool, true, false, Option, none, some, ◌==◌, string_eq, nat_eq, find, if◌then◌else◌,
}
use yaima.Models.{Uuid}
use yaima.Db.{Db, RefreshTokenRow}

pub data Entry : Type 0 where
  absent : Entry
  live spent : Uuid → Entry

abbrev pub Registry : Type 0
Registry = String → Entry

abbrev pub entry_of : Option RefreshTokenRow → Entry
entry_of none = absent
entry_of (some t) = if t.revoked then spent t.user_id else live t.user_id

-- What the table says of a lookup key.
abbrev pub registry : Db → Registry
registry db key = entry_of (find (λ t. t.lookup_key == key) db.refresh_tokens)

abbrev pub set : String → Entry → Registry → Registry
set key e f j = if j == key then e else f j

abbrev pub unless_of : Uuid → Entry → Entry
unless_of id absent = absent
unless_of id (spent owner) = spent owner
unless_of id (live owner) = if owner == id then spent owner else live owner

-- Every live key of a user becomes spent.
abbrev pub spend_all : Uuid → Registry → Registry
spend_all id f j = unless_of id (f j)

-- The steps of the abstract system, from a registry, in any number.
pub data Evolves (f : Registry) : Registry → Type 0 where
  start : Evolves f f
  issue :
      {g : Registry} (key : String) (id : Uuid)
      → Evolves f g
      → g key ≡ absent
      → Evolves f (set key (live id) g)
  spend :
      {g : Registry} (key : String) (id : Uuid)
      → Evolves f g
      → g key ≡ live id
      → Evolves f (set key (spent id) g)
  spend_user : {g : Registry} (id : Uuid) → Evolves f g → Evolves f (spend_all id g)

-- `g` is `f` after a key that was absent became live.
pub record Issues (key : String) (id : Uuid) (f g : Registry) : Type 0 where
  pub was_absent : f key ≡ absent
  pub becomes : g ≡ set key (live id) f

-- `g` is `f` after a key that was live became spent, and then another became live for its owner.
pub record Rotates (key new_key : String) (id : Uuid) (f g : Registry) : Type 0 where
  pub was_live : f key ≡ live id
  pub renews : Issues new_key id (set key (spent id) f) g
