-- ===== src/Tokens/Steps/Alone.antt =====
-- services/token.rs `rotate_refresh_token`: its statements one after the other are the call.
use yaima.Base.{
  ℕ, suc, String, ◌≡◌, refl, ap, sym, ◌∙◌, Option, none, some, ◌||◌, if◌then◌else◌, ltb, arith,
  Bool-cases, inl, inr,
}
use yaima.Config.{Config}
use yaima.Models.{Uuid}
use yaima.Errors.{AppError, database, refresh_token_invalid}
use yaima.External.{Env}
use yaima.Db.{RefreshTokenRow, select_refresh_token, revoke_token}
use yaima.Program.{
  World, Outcome, ok, err, panicked, Action, pure, raise, ok_or, sample, continue, ◌>>=◌, ◌>>◌,
  map_err, query,
}
use yaima.Tokens.{
  compute_lookup_key, revoke_all_user_tokens, create_refresh_token, rotate_live_token, reject_token,
  rotate_refresh_token,
}
use yaima.Tokens.Steps.{
  Phase, selecting, purging, updating, creating, finished, judge, selected, purged, updated,
  created, advance, left_to_run-advance, nothing_left,
}

module _ {S : Type 0} (env : Env S) (config : Config) (raw_token : String) where
  -- What is left of the call.
  abbrev complete : Phase → Action S AppError (String × Uuid)
  complete selecting = rotate_refresh_token env config raw_token
  complete (purging t) = reject_token env config t
  complete (updating t) = do
    map_err database (query env λ _. revoke_token t.id)
    new_raw ← create_refresh_token env config t.user_id
    pure (new_raw, t.user_id)
  complete (creating t) = do
    new_raw ← create_refresh_token env config t.user_id
    pure (new_raw, t.user_id)
  complete (finished r) = λ w. (r, w)

  complete-judged :
      (t : RefreshTokenRow) (now : ℕ) (w : World S)
      → complete (judge env config raw_token now t) w
        ≡ (if t.revoked || ltb t.expires_at now
              then reject_token env config t
              else rotate_live_token env config raw_token t)
            w
  unfolding rotate_live_token ◌>>=◌
  complete-judged t now w = elim (Bool-cases (t.revoked || ltb t.expires_at now)) [
    | inl stale ↦ rw stale refl
    | inr usable ↦ elim (Bool-cases (env.argon2.is_hash t.token_hash)) [
      | inr no_hash ↦ simp (usable, no_hash)
      | inl hash ↦ elim (Bool-cases (env.argon2.verify raw_token t.token_hash)) [
        | inr wrong ↦ simp (usable, hash, wrong)
        | inl right ↦ simp (usable, hash, right)
      ]
    ]
  ]

  rest_of : Option RefreshTokenRow → Action S AppError (String × Uuid)
  rest_of found = do
    t ← ok_or found refresh_token_invalid
    now ← sample env.now
    if t.revoked || ltb t.expires_at now
        then reject_token env config t
        else rotate_live_token env config raw_token t

  complete-selected :
      (r : Outcome AppError (Option RefreshTokenRow)) (w : World S)
      → complete (selected env config raw_token r w).0 (selected env config raw_token r w).1
        ≡ continue r rest_of w
  unfolding rest_of ◌>>=◌
  complete-selected (ok none) w = refl
  complete-selected (ok (some t)) w =
      complete-judged t (env.now w.tick) (record w { tick = suc w.tick })
  complete-selected (err e) w = refl
  complete-selected panicked w = refl

  complete-purged :
      (r : Outcome AppError Unit) (w : World S)
      → complete (purged env config raw_token r) w ≡ continue r (λ u. raise refresh_token_invalid) w
  unfolding ◌>>=◌
  complete-purged (ok u) w = refl
  complete-purged (err e) w = refl
  complete-purged panicked w = refl

  complete-updated :
      (t : RefreshTokenRow) (r : Outcome AppError Unit) (w : World S)
      → complete (updated env config raw_token t r) w ≡ continue r (λ u. complete (creating t)) w
  complete-updated t (ok u) w = refl
  complete-updated t (err e) w = refl
  complete-updated t panicked w = refl

  complete-created :
      (t : RefreshTokenRow) (r : Outcome AppError String) (w : World S)
      → complete (created env config raw_token t r) w
        ≡ continue r (λ new_raw. pure (new_raw, t.user_id)) w
  unfolding ◌>>=◌
  complete-created t (ok new_raw) w = refl
  complete-created t (err e) w = refl
  complete-created t panicked w = refl

  -- A statement leaves what is left of the call to do.
  complete-advance :
      (p : Phase) (w : World S)
      → complete (advance env config raw_token p w).0 (advance env config raw_token p w).1
        ≡ complete p w
  unfolding advance rest_of rotate_refresh_token reject_token ◌>>=◌
  complete-advance selecting w =
      let (r, w') =
        map_err database
          (query env λ _. select_refresh_token (compute_lookup_key env config raw_token)) w in
      complete-selected r w'
  complete-advance (purging t) w =
      let (r, w') = revoke_all_user_tokens env config t.user_id w in complete-purged r w'
  complete-advance (updating t) w =
      let (r, w') = map_err {A = Unit} database (query env λ _. revoke_token t.id) w in
      complete-updated t r w'
  complete-advance (creating t) w =
      let (r, w') = create_refresh_token env config t.user_id w in complete-created t r w'
  complete-advance (finished r) w = refl

  abbrev pub thrice : World S → Phase × World S
  thrice w =
      let (p₁, w₁) = advance env config raw_token selecting w in
      let (p₂, w₂) = advance env config raw_token p₁ w₁ in advance env config raw_token p₂ w₂

  -- The statements of `rotate_refresh_token` run one after the other, three of them at most, give its
  -- outcome and its world.
  pub advance_thrice :
      (w : World S)
      → let (r, w') = rotate_refresh_token env config raw_token w in thrice w ≡ (finished r, w')
  advance_thrice w =
      let (p₁, w₁) = advance env config raw_token selecting w in
      let (p₂, w₂) = advance env config raw_token p₁ w₁ in
      let (p₃, w₃) = advance env config raw_token p₂ w₂ in
      let fewer₁ = left_to_run-advance env config raw_token selecting w in
      let fewer₂ = left_to_run-advance env config raw_token p₁ w₁ in
      let fewer₃ = left_to_run-advance env config raw_token p₂ w₂ in
      let (r, ends) = nothing_left env config raw_token p₃ (omega arith) in
      let whole : complete p₃ w₃ ≡ rotate_refresh_token env config raw_token w =
        complete-advance p₂ w₂ ∙ complete-advance p₁ w₁ ∙ complete-advance selecting w in
      let outcome : (r, w₃) ≡ rotate_refresh_token env config raw_token w =
        sym (ap (λ p. complete p w₃) ends) ∙ whole in
      ap (λ p. (p, w₃)) ends
      ∙ ap (λ (x : Outcome AppError (String × Uuid) × World S). (finished x.0, x.1)) outcome
