-- ===== src/Routes/Overlap/Race.antt =====
-- Two rotations of one token whose `SELECT`s both come before either `UPDATE`.
use mathlib.Core.Path.{subst}
use yaima.Base.{
  ℕ, suc, String, ◌≡◌, ap, sym, ◌∙◌, true, false, none, some, find, ◌==◌, string_eq, ltb,
}
use yaima.Config.{Config}
use yaima.External.{Env}
use yaima.Db.{RefreshTokenRow, select_refresh_token, revoke_token}
use yaima.Program.{World, map_err, query}
use yaima.Tokens.{compute_lookup_key}
use yaima.Tokens.Steps.{selecting, updating, creating, advance}
use yaima.Routes.Overlap.{Overlap, Run, begins, then_left, then_right, move_left, move_right}

module _ {S : Type 0} (env : Env S) (config : Config) (raw : String) where
  -- A row that a rotation accepts at a time.
  pub record IsUsable (t : RefreshTokenRow) (now : ℕ) : Type 0 where
    pub unrevoked : t.revoked ≡ false
    pub unexpired : ltb t.expires_at now ≡ false
    pub parses : env.argon2.is_hash t.token_hash ≡ true
    pub verifies : env.argon2.verify raw t.token_hash ≡ true

  -- A `SELECT` of a usable row goes on to its `UPDATE`.
  select_run :
      (t : RefreshTokenRow) (w : World S)
      → find (λ t. t.lookup_key == compute_lookup_key env config raw) w.db.refresh_tokens ≡ some t
      → IsUsable t (env.now (suc w.tick))
      → env.sql_fault w.tick ≡ none
      → advance env config raw selecting w ≡ (updating t, record w { tick = suc (suc w.tick) })
  unfolding advance select_refresh_token map_err query
  select_run t w found usable clear =
      simp (clear, found, usable.unrevoked, usable.unexpired, usable.parses, usable.verifies)

  -- An `UPDATE` goes on to the `INSERT`, whatever the row is by then.
  update_run :
      (t : RefreshTokenRow) (w : World S)
      → env.sql_fault w.tick ≡ none
      → (advance env config raw (updating t) w).0 ≡ creating t
  unfolding advance revoke_token map_err query
  update_run t w clear = simp clear

  abbrev pub both_selecting : World S → Overlap S
  both_selecting w = record { left = selecting; right = selecting; world = w }

  abbrev pub turns : Overlap S → Overlap S
  turns o = move_right env config raw raw (move_left env config raw raw o)

  both_read :
      (t : RefreshTokenRow) (w : World S)
      → find (λ t. t.lookup_key == compute_lookup_key env config raw) w.db.refresh_tokens ≡ some t
      → IsUsable t (env.now (suc w.tick))
      → IsUsable t (env.now (suc (suc (suc w.tick))))
      → ((n : ℕ) → env.sql_fault n ≡ none)
      → turns (both_selecting w) ≡ record {
        left = updating t;
        right = updating t;
        world = record w { tick = suc (suc (suc (suc w.tick))) };
      }
  both_read t w found first second clear =
      ap
        (λ x. move_right env config raw raw (record { left = x.0; right = selecting; world = x.1 }))
        (select_run t w found first (clear w.tick))
      ∙ ap (λ x. record { left = updating t; right = x.0; world = x.1 })
          (select_run t (record w { tick = suc (suc w.tick) }) found second (clear _))

  -- When two rotations of one token both read its row while it is usable, both go on past their
  -- updates to make a new token for its owner: the second does not see that the first revoked it. This
  -- is so if the database does not fail.
  pub overlap_race :
      (t : RefreshTokenRow) (w : World S)
      → find (λ t. t.lookup_key == compute_lookup_key env config raw) w.db.refresh_tokens ≡ some t
      → IsUsable t (env.now (suc w.tick))
      → IsUsable t (env.now (suc (suc (suc w.tick))))
      → ((n : ℕ) → env.sql_fault n ≡ none)
      → (p : Overlap S) × Run env config raw raw (both_selecting w) 2 p
        × (p.left ≡ creating t)
        × (p.right ≡ creating t)
  overlap_race t w found first second clear =
      let steps = then_right (then_left (then_right (then_left begins))) in
      let (left, right) =
        subst (λ (o : Overlap S). ((turns o).left ≡ creating t) × ((turns o).right ≡ creating t))
          (sym (both_read t w found first second clear))
          (update_run t _ (clear _), update_run t _ (clear _)) in
      (turns (turns (both_selecting w)), steps, left, right)
