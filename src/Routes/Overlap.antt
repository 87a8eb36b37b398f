-- ===== src/Routes/Overlap.antt =====
-- services/token.rs: rotations that overlap each other and other requests. PostgreSQL runs one
-- statement at a time on a row; between two statements of one rotation, statements of the other and
-- whole requests may come.
pub mod Spent
pub mod Race
use mathlib.Core.Path.{subst}
use yaima.Base.{
  ℕ, suc, ◌+◌, ◌-◌, ◌≤◌, String, ◌≡◌, refl, ap, sym, ◌∙◌, Bool, true, false, Option, none, some,
  List, find, arith, ◌==◌, string_eq, if◌then◌else◌, ◌||◌, ltb, not,
}
use yaima.Config.{Config}
use yaima.Models.{Uuid}
use yaima.Errors.{AppError, database, refresh_token_invalid}
use yaima.External.{Env}
use yaima.Db.{Db, RefreshTokenRow, select_refresh_token, revoke_token}
use yaima.Db.Statements.{Statements, statement_rules}
use yaima.Program.{World, Outcome, ok, err, panicked, map_err, query}
use yaima.Program.Keeps.{Keeps, keeps_rules}
use yaima.Tokens.{compute_lookup_key, revoke_all_user_tokens, create_refresh_token}
use yaima.Tokens.Keeps.{revoke_all_user_tokens-Keeps, create_refresh_token-Keeps}
use yaima.Tokens.Spent.{IsSpent, IsSpent-statements}
use yaima.Tokens.Steps.{
  Phase, selecting, purging, updating, creating, finished, judge, selected, purged, updated,
  created, advance, left_to_run, left_to_run-advance, nothing_left,
}
use yaima.Middleware.{Request}
use yaima.Routes
use yaima.Routes.Keeps.{serve_keeps}

-- Two rotations that are under way in one world.
pub record Overlap (S : Type 0) : Type 0 where
  pub left : Phase
  pub right : Phase
  pub world : World S

module _ {S : Type 0} (env : Env S) (config : Config) (left_token right_token : String) where
  abbrev pub move_left : Overlap S → Overlap S
  move_left o =
      let (p, w) = advance env config left_token o.left o.world in record o { left = p; world = w }

  abbrev pub move_right : Overlap S → Overlap S
  move_right o =
      let (p, w) = advance env config right_token o.right o.world in
      record o { right = p; world = w }

  -- A run from `o`, with the number of statements of the left rotation in it.
  pub data Run (o : Overlap S) : ℕ → Overlap S → Type 0 where
    begins : Run o 0 o
    then_left : {n : ℕ} {p : Overlap S} → Run o n p → Run o (suc n) (move_left p)
    then_right : {n : ℕ} {p : Overlap S} → Run o n p → Run o n (move_right p)
    then_others :
        {n : ℕ} {p : Overlap S} (requests : List (Request × Routes.Endpoint))
        → Run o n p
        → Run o n (record p { world = Routes.serve env config requests p.world })
