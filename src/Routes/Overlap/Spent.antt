-- ===== src/Routes/Overlap/Spent.antt =====
-- A rotation of a spent token, whatever overlaps it.
use mathlib.Core.Path.{subst}
use yaima.Base.{
  ℕ, String, ◌≡◌, refl, sym, Option, none, some, inl, inr, ◌⊎◌, Option-cases, string_eq,
}
use yaima.Config.{Config}
use yaima.Errors.{SqlxError, AppError, database, refresh_token_invalid}
use yaima.External.{Env}
use yaima.Db.{Db, RefreshTokenRow, select_refresh_token, revoke_token, revoke_user_tokens}
use yaima.Db.Statements.{Statements, statement_rules}
use yaima.Program.{World, Outcome, ok, err, panicked, map_err, query}
use yaima.Program.Keeps.{Keeps, keeps_rules}
use yaima.Tokens.{compute_lookup_key, revoke_all_user_tokens}
use yaima.Tokens.Keeps.{revoke_all_user_tokens-Keeps, create_refresh_token-Keeps}
use yaima.Tokens.Spent.{IsSpent, IsSpent-statements}
use yaima.Tokens.Steps.{Phase, selecting, purging, updating, creating, finished, selected, advance}
use yaima.Routes.Keeps.{serve_keeps}
use yaima.Routes.Overlap.{Overlap, Run, begins, then_left, then_right, then_others}

-- A rotation that is refused: it has not come to its `UPDATE` of the row, and when it has finished, it
-- was with `REFRESH_TOKEN_INVALID` or a failure of the database.
abbrev pub IsRefused : Phase → Type 0
IsRefused selecting = Unit
IsRefused (purging t) = Unit
IsRefused (updating t) = ⊥
IsRefused (creating t) = ⊥
IsRefused (finished r) =
    (r ≡ err refresh_token_invalid) ⊎ ((e : SqlxError) × (r ≡ err (database e)))

module _ {S : Type 0} (env : Env S) (config : Config) where
  module _ {P : Db → Type 0} (kept : Statements P) (raw : String) where
    selected-same :
        (r : Outcome AppError (Option RefreshTokenRow)) (w : World S)
        → (selected env config raw r w).1.db ≡ w.db
    selected-same (ok none) w = refl
    selected-same (ok (some t)) w = refl
    selected-same (err e) w = refl
    selected-same panicked w = refl

    -- A statement of a rotation keeps what all statements keep.
    advance_keeps : (p : Phase) (w : World S) → P w.db → P (advance env config raw p w).1.db
    unfolding advance
    advance_keeps selecting w h =
        let reading : Keeps P (
            map_err {S = S} database
              (query env λ _. select_refresh_token (compute_lookup_key env config raw))) =
          search (keeps_rules, statement_rules) in
        subst P (sym (selected-same _ _)) (reading.at w h)
    advance_keeps (purging t) w h = (revoke_all_user_tokens-Keeps kept env config t.user_id).at w h
    advance_keeps (updating t) w h =
        let revoking : Keeps P (map_err {S = S} database (query env λ _. revoke_token t.id)) =
          search (keeps_rules, statement_rules) in
        revoking.at w h
    advance_keeps (creating t) w h = (create_refresh_token-Keeps kept env config t.user_id).at w h
    advance_keeps (finished r) w h = h

  advance-IsRefused :
      (raw : String) (p : Phase) (w : World S)
      → IsRefused p
      → IsSpent (compute_lookup_key env config raw) w.db
      → IsRefused (advance env config raw p w).0
  unfolding advance select_refresh_token revoke_all_user_tokens revoke_user_tokens map_err query
  advance-IsRefused raw selecting w h spent = elim (Option-cases (env.sql_fault w.tick)) [
    | inr (e, failed) ↦ simp failed (inr (e, refl))
    | inl clear ↦ simp (clear, spent.found, spent.holds) tt
  ]
  advance-IsRefused raw (purging t) w h spent = elim (Option-cases (env.sql_fault w.tick)) [
    | inr (e, failed) ↦ simp failed (inr (e, refl))
    | inl clear ↦ simp clear (inl refl)
  ]
  advance-IsRefused raw (updating t) w h spent = elim h [ ]
  advance-IsRefused raw (creating t) w h spent = elim h [ ]
  advance-IsRefused raw (finished r) w h spent = h

  module _ (raw other : String) where
    Run-IsRefused :
        {o p : Overlap S} {n : ℕ}
        → Run env config raw other o n p
        → IsRefused o.left
        → IsSpent (compute_lookup_key env config raw) o.world.db
        → IsRefused p.left × IsSpent (compute_lookup_key env config raw) p.world.db
    Run-IsRefused begins h spent = (h, spent)
    Run-IsRefused (then_left {p = p} r) h spent =
        let (refused, still) = Run-IsRefused r h spent in
        (
          advance-IsRefused raw p.left p.world refused still,
          advance_keeps (IsSpent-statements (compute_lookup_key env config raw)) raw p.left p.world
              still,
        )
    Run-IsRefused (then_right {p = p} r) h spent =
        let (refused, still) = Run-IsRefused r h spent in
        (
          refused,
          advance_keeps (IsSpent-statements (compute_lookup_key env config raw)) other p.right
              p.world still,
        )
    Run-IsRefused (then_others {p = p} requests r) h spent =
        let (refused, still) = Run-IsRefused r h spent in
        (
          refused,
          serve_keeps (IsSpent-statements (compute_lookup_key env config raw)) env config requests
              p.world still,
        )

    -- A rotation that starts on a spent token never comes to revoke its row or to make a new token,
    -- whatever another rotation and other requests do between its statements; it is still under way,
    -- or it was refused with `REFRESH_TOKEN_INVALID`, or the database failed.
    pub overlapped-IsRefused :
        (o p : Overlap S) (n : ℕ)
        → Run env config raw other o n p
        → o.left ≡ selecting
        → IsSpent (compute_lookup_key env config raw) o.world.db
        → IsRefused p.left
    overlapped-IsRefused o p n r starts spent =
        (Run-IsRefused r (subst IsRefused (sym starts) tt) spent).0
