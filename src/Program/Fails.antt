-- ===== src/Program/Fails.antt =====
-- The errors that an action can end with, one rule for each way to build an action.
use yaima.Base.{ℕ, suc, Bool, true, false, Option, none, some, if◌then◌else◌}
use yaima.Errors.{SqlxError, AppError, database}
use yaima.Models.{OffsetDateTime}
use yaima.External.{Env}
use yaima.Db.{Db, Answer, answered, refused}
use yaima.Program.{
  World, Outcome, ok, err, panicked, Action, pure, raise, panic, ok_or, expect, sample, raise_if,
  continue, ◌>>=◌, convert, map_err, query, transaction, settle, execute_unless, commit, finish,
  transact,
}

-- An outcome that is no error, or one with the property.
abbrev pub Within : {E A : Type 0} → (E → Type 0) → Outcome E A → Type 0
Within Q (ok a) = Unit
Within Q (err e) = Q e
Within Q panicked = Unit

-- Every error of `m` has the property.
pub record Fails {S E A : Type 0} (Q : E → Type 0) (m : Action S E A) : Type 0 where
  pub at : (w : World S) → Within Q (m w).0

module _ {S E A : Type 0} {Q : E → Type 0} where
  pub pure-Fails : (a : A) → Fails Q (pure {S = S} a)
  unfolding pure
  pure-Fails a = record { at = λ w. tt }

  pub raise-Fails : (e : E) → Q e → Fails Q (raise {S = S} {A = A} e)
  unfolding raise
  raise-Fails e q = record { at = λ w. q }

  pub panic-Fails : Fails Q (panic {S = S} {A = A})
  unfolding panic
  panic-Fails = record { at = λ w. tt }

  pub ok_or-Fails : (o : Option A) (e : E) → Q e → Fails Q (ok_or {S = S} o e)
  unfolding ok_or
  ok_or-Fails none e q = record { at = λ w. q }
  ok_or-Fails (some a) e q = record { at = λ w. tt }

  pub expect-Fails : (o : Option A) → Fails Q (expect {S = S} o)
  unfolding expect
  expect-Fails none = record { at = λ w. tt }
  expect-Fails (some a) = record { at = λ w. tt }

  pub sample-Fails : (f : ℕ → A) → Fails Q (sample {S = S} f)
  unfolding sample
  sample-Fails f = record { at = λ w. tt }

  pub if-Fails :
      (b : Bool) (m n : Action S E A) → Fails Q m → Fails Q n → Fails Q (if b then m else n)
  if-Fails true m n fm fn = fm
  if-Fails false m n fm fn = fn

module _ {S E : Type 0} {Q : E → Type 0} where
  pub raise_if-Fails : (b : Bool) (e : E) → Q e → Fails Q (raise_if {S = S} b e)
  unfolding raise_if
  raise_if-Fails true e q = record { at = λ w. q }
  raise_if-Fails false e q = record { at = λ w. tt }

module _ {S E A B : Type 0} {Q : E → Type 0} where
  Within-continue :
      (r : Outcome E A) (f : A → Action S E B) (w : World S)
      → ((a : A) → Fails Q (f a))
      → Within Q r
      → Within Q (continue r f w).0
  Within-continue (ok a) f w ff h = (ff a).at w
  Within-continue (err e) f w ff h = h
  Within-continue panicked f w ff h = h

  pub bind-Fails :
      (m : Action S E A) (f : A → Action S E B)
      → Fails Q m
      → ((a : A) → Fails Q (f a))
      → Fails Q (m >>= f)
  unfolding ◌>>=◌
  bind-Fails m f fm ff = record {
    at = λ w. let (r, w') = m w in Within-continue r f w' ff (fm.at w);
  }

Within-convert :
    {E F A : Type 0} (Q : F → Type 0) (from : E → F) (r : Outcome E A)
    → Within (λ e. Q (from e)) r
    → Within Q (convert from r)
Within-convert Q from (ok a) h = h
Within-convert Q from (err e) h = h
Within-convert Q from panicked h = h

module _ {S E F A : Type 0} {Q : F → Type 0} where
  pub map_err-Fails :
      (from : E → F) (m : Action S E A)
      → Fails (λ e. Q (from e)) m
      → Fails Q (map_err {S = S} {A = A} from m)
  unfolding map_err
  map_err-Fails from m fm = record { at = λ w. Within-convert Q from (m w).0 (fm.at w) }

module _ {S A : Type 0} {Q : SqlxError → Type 0} (all : (e : SqlxError) → Q e) where
  Within-settle : (w : World S) (a : Answer A) → Within Q (settle w a).0
  Within-settle w (answered a db) = tt
  Within-settle w (refused e) = all e

  Within-execute :
      (fault : Option SqlxError) (statement : Db → Answer A) (w : World S)
      → Within Q (execute_unless fault statement w).0
  Within-execute none statement w = Within-settle w (statement w.db)
  Within-execute (some e) statement w = all e

  pub query-Fails :
      (env : Env S) (statement : OffsetDateTime → Db → Answer A) → Fails Q (query env statement)
  unfolding query
  query-Fails env statement = record {
    at = λ w. Within-execute (env.sql_fault w.tick) (statement (env.now w.tick)) w;
  }

module _ {S A : Type 0} (Q : AppError → Type 0) (all : (e : SqlxError) → Q (database e)) where
  Within-commit :
      (fault : Option SqlxError) (lost : Bool) (before : Db) (a : A) (w : World S)
      → Within Q (commit fault lost before a w).0
  Within-commit none lost before a w = tt
  Within-commit (some e) true before a w = all e
  Within-commit (some e) false before a w = all e

  Within-finish :
      (env : Env S) (before : Db) (r : Outcome AppError A) (w : World S)
      → Within Q r
      → Within Q (finish env before r w).0
  Within-finish env before (ok a) w h =
      Within-commit (env.sql_fault w.tick) (env.commit_lost w.tick) before a w
  Within-finish env before (err e) w h = h
  Within-finish env before panicked w h = h

  Within-transact :
      (env : Env S) (fault : Option SqlxError) (body : OffsetDateTime → Action S AppError A)
      (w : World S)
      → ((started : OffsetDateTime) → Fails Q (body started))
      → Within Q (transact env fault body w).0
  Within-transact env none body w fb =
      let w₀ : World S = record w { tick = suc w.tick } in
      let (r, w') = body (env.now w.tick) w₀ in
      Within-finish env w.db r w' ((fb (env.now w.tick)).at w₀)
  Within-transact env (some e) body w fb = all e

module _ {S A : Type 0} {Q : AppError → Type 0} (all : (e : SqlxError) → Q (database e)) where
  pub transaction-Fails :
      (env : Env S) (body : OffsetDateTime → Action S AppError A)
      → ((started : OffsetDateTime) → Fails Q (body started))
      → Fails Q (transaction env body)
  unfolding transaction
  transaction-Fails env body fb = record {
    at = λ w. Within-transact Q all env (env.sql_fault w.tick) body w fb;
  }

pub ruleset fails_rules = (
  pure-Fails, raise-Fails, panic-Fails, ok_or-Fails, expect-Fails, sample-Fails, if-Fails,
  raise_if-Fails, bind-Fails, map_err-Fails, query-Fails, transaction-Fails,
)
