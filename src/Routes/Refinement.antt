-- ===== src/Routes/Refinement.antt =====
-- The refresh tokens across requests, as the registry sees them.
use yaima.Base.{String, ◌≡◌, List, Bool-cases, inl, inr, ap, sym, ◌∙◌, ◌==◌, string_eq, nat_eq}
use text.Mathlib.TextEquality.{eq_iff}
use mathlib.Core.Path.{subst}
use yaima.Config.{Config}
use yaima.Models.{Uuid}
use yaima.External.{Env}
use yaima.Db.Schema.{IsConsistent}
use yaima.Program.{World}
use yaima.Middleware.{Request}
use yaima.Routes
use yaima.Routes.Keeps.{serve_keeps}
use yaima.Tokens.Registry.{
  Entry, absent, live, spent, Registry, registry, Evolves, start, issue, spend, spend_user, set,
  unless_of,
}
use yaima.Tokens.Registry.Refinement.{Tracks-statements}

-- How an entry can change: it is issued to a user and spent, in this order, and its owner stays.
pub data Grows : Entry → Entry → Type 0 where
  stays : {e : Entry} → Grows e e
  issued : {id : Uuid} → Grows absent (live id)
  ended : {id : Uuid} → Grows (live id) (spent id)
  passed : {id : Uuid} → Grows absent (spent id)

Grows-trans : {e f g : Entry} → Grows e f → Grows f g → Grows e g
Grows-trans stays k = k
Grows-trans issued stays = issued
Grows-trans issued ended = passed
Grows-trans ended stays = ended
Grows-trans passed stays = passed

Grows-set :
    (key : String) (old new : Entry) (f : Registry)
    → f key ≡ old
    → Grows old new
    → (j : String) → Grows (f j) (set key new f j)
Grows-set key old new f at step j = elim (Bool-cases (j == key)) [
  | inl same ↦
      subst (Grows (f j)) (rw same)
        (subst (λ e. Grows e new) (sym (ap f ((eq_iff j key).0 same) ∙ at)) step)
  | inr other ↦ subst (Grows (f j)) (rw other) stays
]

Grows-unless_of : (id : Uuid) (e : Entry) → Grows e (unless_of id e)
Grows-unless_of id absent = stays
Grows-unless_of id (spent owner) = stays
Grows-unless_of id (live owner) = elim (Bool-cases (owner == id)) [
  | inl same ↦ subst (Grows (live owner)) (rw same) ended
  | inr other ↦ subst (Grows (live owner)) (rw other) stays
]

Evolves-Grows : {f g : Registry} → Evolves f g → (key : String) → Grows (f key) (g key)
Evolves-Grows start key = stays
Evolves-Grows (issue {g} k id steps at) key =
    Grows-trans (Evolves-Grows steps key) (Grows-set k absent (live id) g at issued key)
Evolves-Grows (spend {g} k id steps at) key =
    Grows-trans (Evolves-Grows steps key) (Grows-set k (live id) (spent id) g at ended key)
Evolves-Grows (spend_user {g} id steps) key =
    Grows-trans (Evolves-Grows steps key) (Grows-unless_of id (g key))

module _ {S : Type 0} (env : Env S) (config : Config) where
  -- From a database that meets the constraints of the schema, any sequence of requests, whichever
  -- of their calls fail, changes the registry of refresh tokens by its steps alone (an absent key is
  -- issued, a live key is spent, all live keys of a user are spent), so that every key only goes from
  -- absent to live to spent, for one user.
  pub serve-Evolves :
      (requests : List (Request × Routes.Endpoint)) (w : World S)
      → IsConsistent w.db
      → let after = registry (Routes.serve env config requests w).db in
        Evolves (registry w.db) after × ((key : String) → Grows (registry w.db key) (after key))
  serve-Evolves requests w c =
      let (_, steps) =
        serve_keeps (Tracks-statements (registry w.db)) env config requests w (c, start) in
      (steps, Evolves-Grows steps)
