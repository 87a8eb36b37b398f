-- ===== src/Tokens/Steps.antt =====
-- services/token.rs `rotate_refresh_token`, one statement at a time: where a call stands between its
-- awaits, and that its statements run one after the other are the call.
pub mod Alone
use yaima.Base.{
  ℕ, suc, ◌-◌, ◌≤◌, String, ◌≡◌, refl, ap, sym, ◌∙◌, Option, none, some, ◌||◌, not, if◌then◌else◌,
  ltb, arith, Bool-cases, inl, inr,
}
use yaima.Config.{Config}
use yaima.Models.{Uuid}
use yaima.Errors.{AppError, database, refresh_token_invalid}
use yaima.External.{Env}
use yaima.Db.{RefreshTokenRow, select_refresh_token, revoke_token}
use yaima.Program.{
  World, Outcome, ok, err, panicked, Action, pure, raise, ok_or, sample, continue, ◌>>=◌, ◌>>◌,
  map_err, query,
}
use yaima.Tokens.{
  compute_lookup_key, revoke_all_user_tokens, create_refresh_token, rotate_live_token, reject_token,
  rotate_refresh_token,
}

-- The statement that a call runs next: the `SELECT`, the `UPDATE` of every token of the user, the
-- `UPDATE` of the row, or the `INSERT` of the new one.
pub data Phase : Type 0 where
  selecting : Phase
  purging updating creating : RefreshTokenRow → Phase
  finished : Outcome AppError (String × Uuid) → Phase

module _ {S : Type 0} (env : Env S) (config : Config) (raw_token : String) where
  -- The tests on the row that was found.
  abbrev pub judge : ℕ → RefreshTokenRow → Phase
  judge now t =
      if t.revoked || ltb t.expires_at now
      then purging t
      else if not (env.argon2.is_hash t.token_hash)
      then finished (err refresh_token_invalid)
      else if not (env.argon2.verify raw_token t.token_hash)
      then finished (err refresh_token_invalid)
      else updating t

  abbrev pub selected : Outcome AppError (Option RefreshTokenRow) → World S → Phase × World S
  selected (ok none) w = (finished (err refresh_token_invalid), w)
  selected (ok (some t)) w = (judge (env.now w.tick) t, record w { tick = suc w.tick })
  selected (err e) w = (finished (err e), w)
  selected panicked w = (finished panicked, w)

  abbrev pub purged : Outcome AppError Unit → Phase
  purged (ok u) = finished (err refresh_token_invalid)
  purged (err e) = finished (err e)
  purged panicked = finished panicked

  abbrev pub updated : RefreshTokenRow → Outcome AppError Unit → Phase
  updated t (ok u) = creating t
  updated t (err e) = finished (err e)
  updated t panicked = finished panicked

  abbrev pub created : RefreshTokenRow → Outcome AppError String → Phase
  created t (ok new_raw) = finished (ok (new_raw, t.user_id))
  created t (err e) = finished (err e)
  created t panicked = finished panicked

  -- `rotate_refresh_token` to the end of its next statement.
  unfoldable pub advance : Phase → World S → Phase × World S
  advance selecting w =
      let (r, w') =
        map_err database
          (query env λ _. select_refresh_token (compute_lookup_key env config raw_token)) w in
      selected r w'
  advance (purging t) w =
      let (r, w') = revoke_all_user_tokens env config t.user_id w in (purged r, w')
  advance (updating t) w =
      let (r, w') = map_err database (query env λ _. revoke_token t.id) w in (updated t r, w')
  advance (creating t) w =
      let (r, w') = create_refresh_token env config t.user_id w in (created t r, w')
  advance (finished r) w = (finished r, w)

  -- The statements that a call has yet to run, at most.
  abbrev pub left_to_run : Phase → ℕ
  left_to_run selecting = 3
  left_to_run (updating t) = 2
  left_to_run (purging t) = 1
  left_to_run (creating t) = 1
  left_to_run (finished r) = 0

  left_to_run-judge : (now : ℕ) (t : RefreshTokenRow) → left_to_run (judge now t) ≤ 2
  left_to_run-judge now t = ground arith

  left_to_run-purged : (r : Outcome AppError Unit) → left_to_run (purged r) ≡ 0
  left_to_run-purged (ok u) = refl
  left_to_run-purged (err e) = refl
  left_to_run-purged panicked = refl

  left_to_run-updated :
      (t : RefreshTokenRow) (r : Outcome AppError Unit) → left_to_run (updated t r) ≤ 1
  left_to_run-updated t (ok u) = omega arith
  left_to_run-updated t (err e) = omega arith
  left_to_run-updated t panicked = omega arith

  left_to_run-created :
      (t : RefreshTokenRow) (r : Outcome AppError String) → left_to_run (created t r) ≡ 0
  left_to_run-created t (ok new_raw) = refl
  left_to_run-created t (err e) = refl
  left_to_run-created t panicked = refl

  left_to_run-selected :
      (r : Outcome AppError (Option RefreshTokenRow)) (w : World S)
      → left_to_run (selected r w).0 ≤ 2
  left_to_run-selected (ok none) w = omega arith
  left_to_run-selected (ok (some t)) w = left_to_run-judge (env.now w.tick) t
  left_to_run-selected (err e) w = omega arith
  left_to_run-selected panicked w = omega arith

  -- Every step leaves a statement less.
  pub left_to_run-advance :
      (p : Phase) (w : World S) → left_to_run (advance p w).0 ≤ left_to_run p - 1
  unfolding advance
  left_to_run-advance selecting w = left_to_run-selected _ _
  left_to_run-advance (purging t) w =
      let h = left_to_run-purged (revoke_all_user_tokens env config t.user_id w).0 in
      omega (arith, h)
  left_to_run-advance (updating t) w = left_to_run-updated t _
  left_to_run-advance (creating t) w =
      let h = left_to_run-created t (create_refresh_token env config t.user_id w).0 in
      omega (arith, h)
  left_to_run-advance (finished r) w = omega arith

  -- A call with nothing left to run has its outcome.
  pub nothing_left :
      (p : Phase) → left_to_run p ≡ 0 → (r : Outcome AppError (String × Uuid)) × (p ≡ finished r)
  nothing_left selecting h = cc
  nothing_left (purging t) h = cc
  nothing_left (updating t) h = cc
  nothing_left (creating t) h = cc
  nothing_left (finished r) h = (r, refl)
