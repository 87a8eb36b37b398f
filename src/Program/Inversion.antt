-- ===== src/Program/Inversion.antt =====
-- What a successful run shows of its steps.
use mathlib.Core.Path.{subst}
use yaima.Base.{ℕ, suc, ◌≡◌, refl, ap, Bool, true, false, Option, none, some, if◌then◌else◌}
use yaima.Errors.{SqlxError}
use yaima.Models.{OffsetDateTime}
use yaima.External.{Env}
use yaima.Db.{Db, Answer, answered, refused}
use yaima.Program.Keeps.{Keeps}
use yaima.Program.{
  World, Outcome, ok, err, panicked, Action, pure, raise, ok_or, expect, sample, raise_if, continue,
  ◌>>=◌, convert, map_err, query, settle, execute_unless,
}

-- `m` returns `a` from `w` and leaves `w'`.
abbrev pub Returns : {S E A : Type 0} → Action S E A → World S → A → World S → Type 0
Returns m w a w' = m w ≡ (ok a, w')

module _ {S E A B : Type 0} where
  pub bind-Returns :
      (m : Action S E A) (f : A → Action S E B) (w : World S) (b : B) (w' : World S)
      → Returns (m >>= f) w b w'
      → (a : A) × (w₁ : World S) × Returns m w a w₁ × Returns (f a) w₁ b w'
  unfolding ◌>>=◌
  bind-Returns m f w b w' h = go (m w) refl h
    where
      go :
          (r : Outcome E A × World S)
          → m w ≡ r
          → continue r.0 f r.1 ≡ (ok b, w')
          → (a : A) × (w₁ : World S) × Returns m w a w₁ × Returns (f a) w₁ b w'
      go (ok a, w₁) e h = (a, w₁, e, h)
      go (err x, w₁) e h = cc
      go (panicked, w₁) e h = cc

module _ {S E A : Type 0} where
  pub pure-Returns :
      (a : A) (w : World S) (b : A) (w' : World S)
      → Returns {E = E} (pure a) w b w'
      → (a ≡ b) × (w ≡ w')
  unfolding pure
  pure-Returns a w b w' h = (cc, cc)

  pub ok_or-Returns :
      (o : Option A) (e : E) (w : World S) (b : A) (w' : World S)
      → Returns (ok_or o e) w b w'
      → (o ≡ some b) × (w ≡ w')
  unfolding ok_or
  ok_or-Returns none e w b w' h = cc
  ok_or-Returns (some a) e w b w' h = (cc, cc)

  pub expect-Returns :
      (o : Option A) (w : World S) (b : A) (w' : World S)
      → Returns {E = E} (expect o) w b w'
      → (o ≡ some b) × (w ≡ w')
  unfolding expect
  expect-Returns none w b w' h = cc
  expect-Returns (some a) w b w' h = (cc, cc)

  pub sample-Returns :
      (f : ℕ → A) (w : World S) (b : A) (w' : World S)
      → Returns {E = E} (sample f) w b w'
      → (f w.tick ≡ b) × (record w { tick = suc w.tick } ≡ w')
  unfolding sample
  sample-Returns f w b w' h = (cc, cc)

module _ {S E : Type 0} where
  pub raise_if-Returns :
      (b : Bool) (e : E) (w : World S) (u : Unit) (w' : World S)
      → Returns (raise_if b e) w u w'
      → (b ≡ false) × (w ≡ w')
  unfolding raise_if
  raise_if-Returns true e w u w' h = cc
  raise_if-Returns false e w u w' h = (refl, cc)

module _ {S E F A : Type 0} where
  pub map_err-Returns :
      (from : E → F) (m : Action S E A) (w : World S) (a : A) (w' : World S)
      → Returns (map_err from m) w a w'
      → Returns m w a w'
  unfolding map_err
  map_err-Returns from m w a w' h = go (m w) refl h
    where
      go :
          (r : Outcome E A × World S)
          → m w ≡ r
          → ◌≡◌ {A = Outcome F A × World S} (convert from r.0, r.1) (ok a, w')
          → Returns m w a w'
      go (ok b, w₁) e h = cc
      go (err x, w₁) e h = cc
      go (panicked, w₁) e h = cc

module _ {S A : Type 0} where
  -- A statement that answers was run, and left its database.
  pub query-Returns :
      (env : Env S) (statement : OffsetDateTime → Db → Answer A) (w : World S) (a : A)
      (w' : World S)
      → Returns (query env statement) w a w'
      → statement (env.now w.tick) w.db ≡ answered a w'.db
  unfolding query
  query-Returns env statement w a w' h =
      go (env.sql_fault w.tick) (statement (env.now w.tick) w.db) refl h
    where
      settled : (r : Answer A) → settle w r ≡ (ok a, w') → r ≡ answered a w'.db
      settled (answered b db) h = cc
      settled (refused e) h = cc

      go :
          (fault : Option SqlxError) (r : Answer A)
          → statement (env.now w.tick) w.db ≡ r
          → execute_unless fault (statement (env.now w.tick)) w ≡ (ok a, w')
          → statement (env.now w.tick) w.db ≡ answered a w'.db
      go none r e h = settled (statement (env.now w.tick) w.db) h
      go (some x) r e h = cc

module _ {S A : Type 0} where
  -- A statement is one external call.
  pub query-ticks :
      (env : Env S) (statement : OffsetDateTime → Db → Answer A) (w : World S) (a : A)
      (w' : World S)
      → Returns (query env statement) w a w'
      → suc w.tick ≡ w'.tick
  unfolding query
  query-ticks env statement w a w' h = go (env.sql_fault w.tick) (statement (env.now w.tick) w.db) h
    where
      settled : (r : Answer A) → settle w r ≡ (ok a, w') → suc w.tick ≡ w'.tick
      settled (answered b db) h = cc
      settled (refused e) h = cc

      go :
          (fault : Option SqlxError) (r : Answer A)
          → execute_unless fault (statement (env.now w.tick)) w ≡ (ok a, w')
          → suc w.tick ≡ w'.tick
      go none r h = settled (statement (env.now w.tick) w.db) h
      go (some x) r h = cc

-- The steps of a `do` block that returned, one at a time: what the first step shows, and the rest.
module _ {S E A B : Type 0} {C : Type 0} (w : World S) (b : B) (w' : World S) where
  pub after :
      (m : Action S E A) (f : A → Action S E B)
      → Returns (m >>= f) w b w'
      → ((a : A) (w₁ : World S) → Returns m w a w₁ → Returns (f a) w₁ b w' → C)
      → C
  after m f h k = let (a, w₁, first, rest) = bind-Returns m f w b w' h in k a w₁ first rest

  pub after_ok_or :
      (o : Option A) (e : E) (f : A → Action S E B)
      → Returns (ok_or o e >>= f) w b w'
      → ((a : A) → o ≡ some a → Returns (f a) w b w' → C)
      → C
  unfolding ◌>>=◌
  after_ok_or none e f h k = cc
  after_ok_or (some a) e f h k = k a refl h

  pub after_expect :
      (o : Option A) (f : A → Action S E B)
      → Returns (expect o >>= f) w b w'
      → ((a : A) → o ≡ some a → Returns (f a) w b w' → C)
      → C
  unfolding ◌>>=◌
  after_expect none f h k = cc
  after_expect (some a) f h k = k a refl h

  pub after_sample :
      (g : ℕ → A) (f : A → Action S E B)
      → Returns (sample g >>= f) w b w'
      → (Returns (f (g w.tick)) (record w { tick = suc w.tick }) b w' → C)
      → C
  unfolding ◌>>=◌
  after_sample g f h k = k h

module _ {S E B : Type 0} {C : Type 0} (w : World S) (b : B) (w' : World S) where
  pub after_raise_if :
      (c : Bool) (e : E) (f : Unit → Action S E B)
      → Returns (raise_if c e >>= f) w b w'
      → (c ≡ false → Returns (f tt) w b w' → C)
      → C
  unfolding ◌>>=◌
  after_raise_if true e f h k = cc
  after_raise_if false e f h k = k refl h

module _ {S F A B : Type 0} {C : Type 0} (w : World S) (b : B) (w' : World S) where
  pub after_query :
      (from : SqlxError → F) (env : Env S) (statement : OffsetDateTime → Db → Answer A)
      (f : A → Action S F B)
      → Returns (map_err from (query env statement) >>= f) w b w'
      → ((a : A) (w₁ : World S)
          → statement (env.now w.tick) w.db ≡ answered a w₁.db
          → Returns (f a) w₁ b w'
          → C)
      → C
  after_query from env statement f h k =
      after w b w' (map_err from (query env statement)) f h λ a w₁ first rest.
        k a w₁ (query-Returns env statement w a w₁ (map_err-Returns from _ w a w₁ first)) rest

-- What an action keeps holds of the database that it returns in.
pub Keeps-Returns :
    {S E A : Type 0} {P : Db → Type 0} (m : Action S E A) (w : World S) (a : A) (w' : World S)
    → Keeps P m
    → Returns m w a w'
    → P w.db
    → P w'.db
Keeps-Returns {P = P} m w a w' kept h p = subst (λ x. P x.db) (ap (λ r. r.1) h) (kept.at w p)

module _ {S E A : Type 0} {C : Type 0} (w : World S) (a : A) (w' : World S) where
  pub in_branch :
      (c : Bool) (m n : Action S E A)
      → Returns (if c then m else n) w a w'
      → (c ≡ true → Returns m w a w' → C)
      → (c ≡ false → Returns n w a w' → C)
      → C
  in_branch true m n h k l = k refl h
  in_branch false m n h k l = l refl h

  pub not_raise : (e : E) → Returns (raise e) w a w' → C
  unfolding raise
  not_raise e h = cc
