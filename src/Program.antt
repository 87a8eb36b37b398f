-- ===== src/Program.antt =====
-- The shape of an `async fn`: it reads and changes the world, and returns a value, an error or a
-- panic. What it changed before an error stays changed, so the world comes back beside the error.
pub mod Inversion
pub mod Keeps
pub mod Fails
pub mod Still
pub mod Transaction
use yaima.Base.{ℕ, suc, String, Bool, true, false, Option, none, some, if◌then◌else◌}
use yaima.Errors.{SqlxError, AppError, database}
use yaima.Models.{OffsetDateTime}
use yaima.External.{Env}
use yaima.Db.{Db, Answer, answered, refused}

-- The database, Valkey's store, and the number of external calls made so far.
pub record World (S : Type 0) : Type 0 where
  pub db : Db
  pub store : S
  pub tick : ℕ

pub data Outcome (E A : Type 0) : Type 0 where
  ok : A → Outcome E A
  err : E → Outcome E A
  panicked : Outcome E A

abbrev pub Action : Type 0 → Type 0 → Type 0 → Type 0
Action S E A = World S → Outcome E A × World S

module _ {S E A : Type 0} where
  pub pure : A → Action S E A
  pure a w = (ok a, w)

  pub raise : E → Action S E A
  raise e w = (err e, w)

  -- A failed `expect` or an arithmetic panic.
  pub panic : Action S E A
  panic w = (panicked, w)

  -- `o.ok_or(e)?`
  pub ok_or : Option A → E → Action S E A
  ok_or none e w = (err e, w)
  ok_or (some a) e w = (ok a, w)

  -- `o.expect(…)`
  pub expect : Option A → Action S E A
  expect none w = (panicked, w)
  expect (some a) w = (ok a, w)

  -- An external call that cannot fail.
  pub sample : (ℕ → A) → Action S E A
  sample f w = (ok (f w.tick), record w { tick = suc w.tick })

module _ {S E : Type 0} where
  -- `if b { return Err(e) }`
  pub raise_if : Bool → E → Action S E Unit
  raise_if true e w = (err e, w)
  raise_if false e w = (ok tt, w)

module _ {S E A B : Type 0} where
  abbrev pub continue : Outcome E A → (A → Action S E B) → Action S E B
  continue (ok a) f w = f a w
  continue (err e) f w = (err e, w)
  continue panicked f w = (panicked, w)

  infixl 10 ◌>>=◌ ◌>>◌
  unfoldable pub ◌>>=◌ : Action S E A → (A → Action S E B) → Action S E B
  unfolding pure raise panic ok_or expect sample raise_if
  ◌>>=◌ m f w = let (r, w') = m w in continue r f w'

  abbrev pub ◌>>◌ : Action S E A → Action S E B → Action S E B
  m >> n = m >>= λ _. n

module _ {E F A : Type 0} where
  abbrev pub convert : (E → F) → Outcome E A → Outcome F A
  convert from (ok a) = ok a
  convert from (err e) = err (from e)
  convert from panicked = panicked

module _ {S E F A : Type 0} where
  -- `?` across error types, by `From`, and `map_err`.
  unfoldable pub map_err : (E → F) → Action S E A → Action S F A
  map_err from m w = let (r, w') = m w in (convert from r, w')

module _ {S A : Type 0} where
  abbrev pub settle : World S → Answer A → Outcome SqlxError A × World S
  settle w (answered a db) = (ok a, record w { db = db; tick = suc w.tick })
  settle w (refused e) = (err e, record w { tick = suc w.tick })

  abbrev pub execute_unless :
      Option SqlxError → (Db → Answer A) → World S → Outcome SqlxError A × World S
  execute_unless none statement w = settle w (statement w.db)
  execute_unless (some e) statement w = (err e, record w { tick = suc w.tick })

  -- One statement, at the time that `NOW()` gives it. A call that fails of itself does nothing.
  unfoldable pub query : Env S → (OffsetDateTime → Db → Answer A) → Action S SqlxError A
  query env statement w = execute_unless (env.sql_fault w.tick) (statement (env.now w.tick)) w

  -- `tx.commit().await?`: the `COMMIT` of an error may have taken effect, its answer being lost.
  abbrev pub commit :
      Option SqlxError → (lost : Bool) → Db → A → World S → Outcome AppError A × World S
  commit none lost before a w = (ok a, record w { tick = suc w.tick })
  commit (some e) true before a w = (err (database e), record w { tick = suc w.tick })
  commit (some e) false before a w = (err (database e), record w { db = before; tick = suc w.tick })

  -- The end of a transaction: a commit after a success; a dropped `tx` rolls back.
  abbrev pub finish : Env S → Db → Outcome AppError A → World S → Outcome AppError A × World S
  finish env before (ok a) w = commit (env.sql_fault w.tick) (env.commit_lost w.tick) before a w
  finish env before (err e) w = (err e, record w { db = before })
  finish env before panicked w = (panicked, record w { db = before })

  abbrev pub transact :
      Env S
      → Option SqlxError
      → (OffsetDateTime → Action S AppError A)
      → World S
      → Outcome AppError A × World S
  transact env none body w =
      let (r, w') = body (env.now w.tick) (record w { tick = suc w.tick }) in finish env w.db r w'
  transact env (some e) body w = (err (database e), record w { tick = suc w.tick })

  -- `let mut tx = pool.begin().await?; body; tx.commit().await?`. In `body` the time of `NOW()` is
  -- that of the transaction's start.
  unfoldable pub transaction : Env S → (OffsetDateTime → Action S AppError A) → Action S AppError A
  transaction env body w = transact env (env.sql_fault w.tick) body w
