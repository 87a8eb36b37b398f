-- ===== src/Program/Transaction.antt =====
-- `pool.begin()` … `tx.commit()`.
use yaima.Base.{suc, ◌≡◌, refl, Bool, true, false, Option, none, some, ◌⊎◌, inl, inr}
use yaima.Errors.{SqlxError, AppError, database}
use yaima.Models.{OffsetDateTime}
use yaima.External.{Env}
use yaima.Db.{Db}
use yaima.Program.{World, Outcome, ok, err, panicked, Action, commit, finish, transact, transaction}
use yaima.Program.Inversion.{Returns}

module _ {S A : Type 0} (env : Env S) (body : OffsetDateTime → Action S AppError A)
    (w : World S) where
  -- A transaction that took effect has run its body on the database, and left what the body left.
  pub record IsCommitted (a : A) (after : Db) : Type 0 where
    pub entered : World S
    pub left : World S
    pub ran : Returns (body (env.now w.tick)) entered a left
    pub from : entered.db ≡ w.db
    pub to : after ≡ left.db

  -- A transaction that failed left the database as it was, or took effect with its `COMMIT`'s answer
  -- lost.
  abbrev pub IsAtomic : AppError → Db → Type 0
  IsAtomic e after =
      (after ≡ w.db) ⊎ ((a : A) × IsCommitted a after × (x : SqlxError) × (e ≡ database x))

  abbrev entered_at : World S
  entered_at = record w { tick = suc w.tick }

  module _ (w' : World S) where
    pub transaction-IsCommitted :
        (a : A) → Returns (transaction env body) w a w' → IsCommitted a w'.db
    unfolding transaction
    transaction-IsCommitted a h = begun (env.sql_fault w.tick) h
      where
        committed :
            (fault : Option SqlxError) (lost : Bool) (b : A) (left : World S)
            → body (env.now w.tick) entered_at ≡ (ok b, left)
            → commit fault lost w.db b left ≡ (ok a, w')
            → IsCommitted a w'.db
        committed none lost b left e h = record {
          entered = entered_at;
          left = left;
          ran = cc;
          from = refl;
          to = cc;
        }
        committed (some x) true b left e h = cc
        committed (some x) false b left e h = cc

        ended :
            (r : Outcome AppError A) (left : World S)
            → body (env.now w.tick) entered_at ≡ (r, left)
            → finish env w.db r left ≡ (ok a, w')
            → IsCommitted a w'.db
        ended (ok b) left e h =
            committed (env.sql_fault left.tick) (env.commit_lost left.tick) b left e h
        ended (err x) left e h = cc
        ended panicked left e h = cc

        begun :
            (fault : Option SqlxError)
            → transact env fault body w ≡ (ok a, w')
            → IsCommitted a w'.db
        begun none h = let (r, left) = body (env.now w.tick) entered_at in ended r left refl h
        begun (some x) h = cc

    pub transaction-IsAtomic :
        (e : AppError) → transaction env body w ≡ (err e, w') → IsAtomic e w'.db
    unfolding transaction
    transaction-IsAtomic e h = begun (env.sql_fault w.tick) h
      where
        committed :
            (fault : Option SqlxError) (lost : Bool) (b : A) (left : World S)
            → body (env.now w.tick) entered_at ≡ (ok b, left)
            → commit fault lost w.db b left ≡ (err e, w')
            → IsAtomic e w'.db
        committed none lost b left is h = cc
        committed (some x) true b left is h =
            inr (
              b,
              record { entered = entered_at; left = left; ran = is; from = refl; to = cc },
              x,
              cc,
            )
        committed (some x) false b left is h = inl cc

        ended :
            (r : Outcome AppError A) (left : World S)
            → body (env.now w.tick) entered_at ≡ (r, left)
            → finish env w.db r left ≡ (err e, w')
            → IsAtomic e w'.db
        ended (ok b) left is h =
            committed (env.sql_fault left.tick) (env.commit_lost left.tick) b left is h
        ended (err x) left is h = inl cc
        ended panicked left is h = cc

        begun :
            (fault : Option SqlxError) → transact env fault body w ≡ (err e, w') → IsAtomic e w'.db
        begun none h = let (r, left) = body (env.now w.tick) entered_at in ended r left refl h
        begun (some x) h = inl cc
