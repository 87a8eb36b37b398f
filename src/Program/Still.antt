-- ===== src/Program/Still.antt =====
-- Actions that only look.
use yaima.Base.{◌≡◌, refl, ◌∙◌, Bool, true, false, Option, none, some}
use yaima.Program.{
  World, Outcome, ok, err, panicked, Action, pure, ok_or, raise_if, continue, ◌>>=◌,
}

-- An action that leaves the world as it is.
pub record IsStill {S E A : Type 0} (m : Action S E A) : Type 0 where
  pub same : (w : World S) → (m w).1 ≡ w

pub ok_or-IsStill : {S E A : Type 0} (o : Option A) (e : E) → IsStill (ok_or {S = S} o e)
unfolding ok_or
ok_or-IsStill none e = record { same = λ w. refl }
ok_or-IsStill (some a) e = record { same = λ w. refl }

pub raise_if-IsStill : {S E : Type 0} (b : Bool) (e : E) → IsStill (raise_if {S = S} b e)
unfolding raise_if
raise_if-IsStill true e = record { same = λ w. refl }
raise_if-IsStill false e = record { same = λ w. refl }

pub pure-IsStill : {S E A : Type 0} (a : A) → IsStill (pure {S = S} {E = E} a)
unfolding pure
pure-IsStill a = record { same = λ w. refl }

pub bind-IsStill :
    {S E A B : Type 0} (m : Action S E A) (f : A → Action S E B)
    → IsStill m
    → ((a : A) → IsStill (f a))
    → IsStill (m >>= f)
unfolding ◌>>=◌
bind-IsStill {S} {E} {A} {B} m f still rest = record {
  same = λ w. go (m w).0 (m w).1 ∙ still.same w;
}
  where
    go : (r : Outcome E A) (w : World S) → (continue r f w).1 ≡ w
    go (ok a) w = (rest a).same w
    go (err e) w = refl
    go panicked w = refl

pub ruleset still_rules = (ok_or-IsStill, raise_if-IsStill, pure-IsStill, bind-IsStill)
