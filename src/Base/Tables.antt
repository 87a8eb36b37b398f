-- ===== src/Base/Tables.antt =====
-- A database table as the list of its rows, oldest first.
use Prim.Native.Nat.{ℕ, suc}
use mathlib.Core.Path.{◌≡◌, refl, ap, subst, ◌∙◌}
use mathlib.Core.Logic.{inl, inr}
use mathlib.Core.Bool.{Bool, true, false, ◌||◌}
use mathlib.Core.Option.{Option, none, some}
use mathlib.Core.List.{List, [], ◌∷◌, ◌++◌}
use native.Mathlib.Omega.{arith}
use yaima.Base.Tests.{◌==◌, PartialEq, Bool-cases, if◌then◌else◌}

module _ {ℓ} {R : Type ℓ} where
  -- Some row passes the test: an index finds an entry.
  abbrev pub any : (R → Bool) → List R → Bool
  any p [] = false
  any p (r ∷ rs) = p r || any p rs

  -- `SELECT … WHERE p`, read by `fetch_optional`.
  abbrev pub find : (R → Bool) → List R → Option R
  find p [] = none
  find p (r ∷ rs) = if p r then some r else find p rs

  -- `SELECT … WHERE p`, read by `fetch_all`, and what `DELETE … WHERE not p` leaves.
  abbrev pub select : (R → Bool) → List R → List R
  select p [] = []
  select p (r ∷ rs) = if p r then r ∷ select p rs else select p rs

  -- `UPDATE … SET f WHERE p`
  abbrev pub update_where : (R → Bool) → (R → R) → List R → List R
  update_where p f [] = []
  update_where p f (r ∷ rs) = (if p r then f r else r) ∷ update_where p f rs

  abbrev pub length : List R → ℕ
  length [] = 0
  length (r ∷ rs) = suc (length rs)

  -- Every row passes the test.
  abbrev pub All {κ} : (R → Type κ) → List R → Type κ
  All P [] = Unit
  All P (r ∷ rs) = P r × All P rs

  pub All-append {κ} :
      (P : R → Type κ) (rs : List R) (r : R) → All P rs → P r → All P (rs ++ r ∷ [])
  All-append P [] r h p = (p, tt)
  All-append P (x ∷ rs) r h p = (h.0, All-append P rs r h.1 p)

  pub All-map {κ} : (P Q : R → Type κ) (rs : List R) → ((r : R) → P r → Q r) → All P rs → All Q rs
  All-map P Q [] f h = tt
  All-map P Q (x ∷ rs) f h = (f x h.0, All-map P Q rs f h.1)

  pub All-select {κ} :
      (P : R → Type κ) (p : R → Bool) (rs : List R) → All P rs → All P (select p rs)
  All-select P p [] h = tt
  All-select P p (x ∷ rs) h =
      elim (p x) as (λ b. All P (if b then x ∷ select p rs else select p rs)) [
        | true ↦ (h.0, All-select P p rs h.1)
        | false ↦ All-select P p rs h.1
      ]

  pub any-append : (p : R → Bool) (rs : List R) (r : R) → any p (rs ++ r ∷ []) ≡ (any p rs || p r)
  any-append p [] r = ground arith
  any-append p (x ∷ rs) r = ground (arith, any-append p rs r)

  pub any-select : (p q : R → Bool) (rs : List R) → any p rs ≡ false → any p (select q rs) ≡ false
  any-select p q [] h = refl
  any-select p q (x ∷ rs) h = ground (arith, any-select p q rs)

  -- An update that leaves the tested column alone.
  pub any-update_where :
      (p q : R → Bool) (f : R → R) (rs : List R)
      → ((r : R) → p (f r) ≡ p r)
      → any p (update_where q f rs) ≡ any p rs
  any-update_where p q f [] h = refl
  any-update_where p q f (x ∷ rs) h = ground (arith, h x, any-update_where p q f rs h)

  pub find-eq-some : (p : R → Bool) (rs : List R) (r : R) → find p rs ≡ some r → p r ≡ true
  find-eq-some p [] r e = cc
  find-eq-some p (x ∷ rs) r e = ground (arith, find-eq-some p rs r)

  -- What is found is a row of the table.
  pub All-find {κ} :
      (P : R → Type κ) (p : R → Bool) (rs : List R) (r : R) → All P rs → find p rs ≡ some r → P r
  All-find P p [] r h e = cc
  All-find P p (x ∷ rs) r h e = elim (Bool-cases (p x)) [
    | inl hit ↦ (let same : x ≡ r = ground arith in subst P same h.0)
    | inr miss ↦ All-find P p rs r h.1 (ground arith)
  ]

  pub any-find :
      (p q : R → Bool) (rs : List R) (r : R) → find p rs ≡ some r → q r ≡ true → any q rs ≡ true
  any-find p q [] r e h = cc
  any-find p q (x ∷ rs) r e h = ground (arith, any-find p q rs r)

  pub find-eq-none : (p : R → Bool) (rs : List R) → find p rs ≡ none → any p rs ≡ false
  find-eq-none p [] e = refl
  find-eq-none p (x ∷ rs) e = ground (arith, find-eq-none p rs)

  pub find-none_of_any : (p : R → Bool) (rs : List R) → any p rs ≡ false → find p rs ≡ none
  find-none_of_any p [] e = refl
  find-none_of_any p (x ∷ rs) e = ground (arith, find-none_of_any p rs)

  pub find-append_new :
      (p : R → Bool) (rs : List R) (r : R)
      → any p rs ≡ false
      → find p (rs ++ r ∷ []) ≡ (if p r then some r else none)
  find-append_new p [] r e = refl
  find-append_new p (x ∷ rs) r e = ground (arith, find-append_new p rs r)

  pub find-append_old :
      (p : R → Bool) (rs : List R) (r : R) → p r ≡ false → find p (rs ++ r ∷ []) ≡ find p rs
  find-append_old p [] r e = ground arith
  find-append_old p (x ∷ rs) r e = ground (arith, find-append_old p rs r e)

  pub find-append_found :
      (p : R → Bool) (rs : List R) (x r : R) → find p rs ≡ some r → find p (rs ++ x ∷ []) ≡ some r
  find-append_found p [] x r e = cc
  find-append_found p (y ∷ rs) x r e = ground (arith, find-append_found p rs x r)

  -- An update that leaves the tested column alone changes what is found, and not which row.
  pub find-update_where :
      (p q : R → Bool) (f : R → R) (rs : List R) (r : R)
      → ((x : R) → p (f x) ≡ p x)
      → find p rs ≡ some r
      → find p (update_where q f rs) ≡ some (if q r then f r else r)
  find-update_where p q f [] r same e = cc
  find-update_where p q f (x ∷ rs) r same e =
      ground (arith, same x, find-update_where p q f rs r same)

  -- An update that makes its own test fail leaves no row that passes it.
  pub any-update_where_self :
      (q : R → Bool) (f : R → R) (rs : List R)
      → ((x : R) → q (f x) ≡ false)
      → any q (update_where q f rs) ≡ false
  any-update_where_self q f [] off = refl
  any-update_where_self q f (x ∷ rs) off = ground (arith, off x, any-update_where_self q f rs off)

  pub find-none-update_where :
      (p q : R → Bool) (f : R → R) (rs : List R)
      → ((x : R) → p (f x) ≡ p x)
      → find p rs ≡ none
      → find p (update_where q f rs) ≡ none
  find-none-update_where p q f [] same e = refl
  find-none-update_where p q f (x ∷ rs) same e =
      ground (arith, same x, find-none-update_where p q f rs same)

module _ {ℓ κ} {R : Type ℓ} {K : Type κ} ⦃e : PartialEq K⦄ (key : R → K) where
  -- `UNIQUE (key)`
  abbrev pub IsUnique : List R → Type 0
  IsUnique [] = Unit
  IsUnique (r ∷ rs) = (any (λ x. key x == key r) rs ≡ false) × IsUnique rs

  -- The index test that an insert makes.
  abbrev pub has_key : K → List R → Bool
  has_key k = any (λ x. key x == k)

  pub IsUnique-append :
      (rs : List R) (r : R) → has_key (key r) rs ≡ false → IsUnique rs → IsUnique (rs ++ r ∷ [])
  IsUnique-append [] r h u = (refl, tt)
  IsUnique-append (x ∷ rs) r h u =
      (grind (arith, any-append, e.beq_means), IsUnique-append rs r (ground arith) u.1)

  pub IsUnique-update_where :
      (q : R → Bool) (f : R → R) (rs : List R)
      → ((r : R) → key (f r) ≡ key r)
      → IsUnique rs
      → IsUnique (update_where q f rs)
  IsUnique-update_where q f [] same u = tt
  IsUnique-update_where q f (x ∷ rs) same u = (
    any-update_where (λ y. key y == key (if q x then f x else x)) q f rs
          (λ y. ap (λ k. k == key (if q x then f x else x)) (same y))
        ∙ ap (λ k. any (λ y. key y == k) rs) (if_same (q x))
        ∙ u.0,
    IsUnique-update_where q f rs same u.1,
  )
    where
      if_same : (b : Bool) → key (if b then f x else x) ≡ key x
      if_same true = same x
      if_same false = refl

  pub IsUnique-select : (q : R → Bool) (rs : List R) → IsUnique rs → IsUnique (select q rs)
  IsUnique-select q [] u = tt
  IsUnique-select q (x ∷ rs) u =
      elim (q x) as (λ b. IsUnique (if b then x ∷ select q rs else select q rs)) [
        | true ↦ (any-select (λ y. key y == key x) q rs u.0, IsUnique-select q rs u.1)
        | false ↦ IsUnique-select q rs u.1
      ]
