-- ===== src/Program/Keeps.antt =====
-- Invariants of the database, one rule for each way to build an action.
use yaima.Base.{ℕ, suc, Bool, true, false, Option, none, some, if◌then◌else◌}
use yaima.Errors.{SqlxError, AppError}
use yaima.Models.{OffsetDateTime}
use yaima.External.{Env}
use yaima.Db.{Db, Answer}
use yaima.Db.Statements.{Leaves, stays, leaves}
use yaima.Program.{
  World, Outcome, ok, err, panicked, Action, pure, raise, panic, ok_or, expect, sample, raise_if,
  continue, ◌>>=◌, map_err, query, transaction, settle, execute_unless, commit, finish, transact,
}

-- `m` keeps `P` of the database, whether it returns, fails or panics.
pub record Keeps {S E A : Type 0} (P : Db → Type 0) (m : Action S E A) : Type 0 where
  pub at : (w : World S) → P w.db → P (m w).1.db

module _ {S E A : Type 0} {P : Db → Type 0} where
  pub pure-Keeps : (a : A) → Keeps P (pure {S = S} {E = E} a)
  unfolding pure
  pure-Keeps a = record { at = λ w h. h }

  pub raise-Keeps : (e : E) → Keeps P (raise {S = S} {A = A} e)
  unfolding raise
  raise-Keeps e = record { at = λ w h. h }

  pub panic-Keeps : Keeps P (panic {S = S} {E = E} {A = A})
  unfolding panic
  panic-Keeps = record { at = λ w h. h }

  pub ok_or-Keeps : (o : Option A) (e : E) → Keeps P (ok_or {S = S} o e)
  unfolding ok_or
  ok_or-Keeps none e = record { at = λ w h. h }
  ok_or-Keeps (some a) e = record { at = λ w h. h }

  pub expect-Keeps : (o : Option A) → Keeps P (expect {S = S} {E = E} o)
  unfolding expect
  expect-Keeps none = record { at = λ w h. h }
  expect-Keeps (some a) = record { at = λ w h. h }

  pub sample-Keeps : (f : ℕ → A) → Keeps P (sample {S = S} {E = E} f)
  unfolding sample
  sample-Keeps f = record { at = λ w h. h }

  pub if-Keeps :
      (b : Bool) (m n : Action S E A) → Keeps P m → Keeps P n → Keeps P (if b then m else n)
  if-Keeps true m n km kn = km
  if-Keeps false m n km kn = kn

module _ {S E : Type 0} {P : Db → Type 0} where
  pub raise_if-Keeps : (b : Bool) (e : E) → Keeps P (raise_if {S = S} b e)
  unfolding raise_if
  raise_if-Keeps true e = record { at = λ w h. h }
  raise_if-Keeps false e = record { at = λ w h. h }

module _ {S E A B : Type 0} {P : Db → Type 0} where
  Keeps-continue :
      (r : Outcome E A) (f : A → Action S E B) (w : World S)
      → ((a : A) → Keeps P (f a))
      → P w.db
      → P (continue r f w).1.db
  Keeps-continue (ok a) f w kf h = (kf a).at w h
  Keeps-continue (err e) f w kf h = h
  Keeps-continue panicked f w kf h = h

  pub bind-Keeps :
      (m : Action S E A) (f : A → Action S E B)
      → Keeps P m
      → ((a : A) → Keeps P (f a))
      → Keeps P (m >>= f)
  unfolding ◌>>=◌
  bind-Keeps m f km kf = record {
    at = λ w h. let (r, w') = m w in Keeps-continue r f w' kf (km.at w h);
  }

module _ {S E F A : Type 0} {P : Db → Type 0} where
  pub map_err-Keeps :
      (from : E → F) (m : Action S E A) → Keeps P m → Keeps P (map_err {S = S} {A = A} from m)
  unfolding map_err
  map_err-Keeps from m km = record { at = λ w h. km.at w h }

module _ {S A : Type 0} {P : Db → Type 0} where
  Keeps-settle : {a : Answer A} (w : World S) → P w.db → Leaves P a → P (settle w a).1.db
  Keeps-settle w h stays = h
  Keeps-settle w h (leaves k) = k

  Keeps-execute :
      (fault : Option SqlxError) (statement : Db → Answer A) (w : World S)
      → ((db : Db) → P db → Leaves P (statement db))
      → P w.db
      → P (execute_unless fault statement w).1.db
  Keeps-execute none statement w k h = Keeps-settle w h (k w.db h)
  Keeps-execute (some e) statement w k h = h

  pub query-Keeps :
      (env : Env S) (statement : OffsetDateTime → Db → Answer A)
      → ((now : OffsetDateTime) (db : Db) → P db → Leaves P (statement now db))
      → Keeps P (query env statement)
  unfolding query
  query-Keeps env statement k = record {
    at = λ w h. Keeps-execute (env.sql_fault w.tick) (statement (env.now w.tick)) w (k _) h;
  }

module _ {S A : Type 0} (P : Db → Type 0) where
  Keeps-commit :
      (fault : Option SqlxError) (lost : Bool) (before : Db) (a : A) (w : World S)
      → P before
      → P w.db
      → P (commit fault lost before a w).1.db
  Keeps-commit none lost before a w hb h = h
  Keeps-commit (some e) true before a w hb h = h
  Keeps-commit (some e) false before a w hb h = hb

  Keeps-finish :
      (env : Env S) (before : Db) (r : Outcome AppError A) (w : World S)
      → P before
      → P w.db
      → P (finish env before r w).1.db
  Keeps-finish env before (ok a) w hb h =
      Keeps-commit (env.sql_fault w.tick) (env.commit_lost w.tick) before a w hb h
  Keeps-finish env before (err e) w hb h = hb
  Keeps-finish env before panicked w hb h = hb

  Keeps-transact :
      (env : Env S) (fault : Option SqlxError) (body : OffsetDateTime → Action S AppError A)
      (w : World S)
      → ((started : OffsetDateTime) → Keeps P (body started))
      → P w.db
      → P (transact env fault body w).1.db
  Keeps-transact env none body w kb h =
      let w₀ : World S = record w { tick = suc w.tick } in
      let (r, w') = body (env.now w.tick) w₀ in
      Keeps-finish env w.db r w' h ((kb (env.now w.tick)).at w₀ h)
  Keeps-transact env (some e) body w kb h = h

module _ {S A : Type 0} {P : Db → Type 0} where
  pub transaction-Keeps :
      (env : Env S) (body : OffsetDateTime → Action S AppError A)
      → ((started : OffsetDateTime) → Keeps P (body started))
      → Keeps P (transaction env body)
  unfolding transaction
  transaction-Keeps env body kb = record {
    at = λ w h. Keeps-transact P env (env.sql_fault w.tick) body w kb h;
  }

pub ruleset keeps_rules = (
  pure-Keeps, raise-Keeps, panic-Keeps, ok_or-Keeps, expect-Keeps, sample-Keeps, if-Keeps,
  raise_if-Keeps, bind-Keeps, map_err-Keeps, query-Keeps, transaction-Keeps,
)
