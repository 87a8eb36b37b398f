-- ===== src/Tokens/Registry/Table.antt =====
-- Rows under a unique key: which row is found after an update of one of them.
use mathlib.Core.Path.{subst}
use yaima.Base.{
  ◌≡◌, refl, sym, Bool, true, false, some, List, [], ◌∷◌, PartialEq, ◌==◌, beq_refl, inl, inr,
  arith, Bool-cases, any, find, update_where, IsUnique, any-find, any-append, ◌++◌, ◌∙◌,
}

module _ {ℓ} {R : Type ℓ} where
  pub update_where_none :
      (q : R → Bool) (f : R → R) (rs : List R) → any q rs ≡ false → update_where q f rs ≡ rs
  update_where_none q f [] h = refl
  update_where_none q f (x ∷ rs) h = ground (arith, update_where_none q f rs)

module _ {ℓ κ} {R : Type ℓ} {K : Type κ} ⦃e : PartialEq K⦄ (key : R → K) where
  -- The row that any test finds is the one that its unique key finds.
  pub find_by_key :
      (p : R → Bool) (rs : List R) (r : R)
      → IsUnique key rs
      → find p rs ≡ some r
      → find (λ x. key x == key r) rs ≡ some r
  find_by_key p [] r u h = cc
  find_by_key p (x ∷ rs) r u h = elim (Bool-cases (p x)) [
    | inl hit ↦
        subst (λ y. find (λ x. key x == key y) (x ∷ rs) ≡ some y) (first_is hit)
          (rw (beq_refl (key x)))
    | inr miss ↦ rw (other miss) (find_by_key p rs r u.1 (ground arith))
  ]
    where
      first_is : p x ≡ true → x ≡ r
      first_is hit = ground arith

      other : p x ≡ false → (key x == key r) ≡ false
      other miss = elim (Bool-cases (key x == key r)) [
        | inr no_match ↦ no_match
        | inl match ↦
            (let twin : (key r == key x) ≡ true =
                (e.beq_means (key r) (key x)).1 (sym ((e.beq_means (key x) (key r)).0 match)) in
              let again = any-find p (λ y. key y == key x) rs r (ground arith) twin in cc)
      ]

  -- The last row of a table is the one that its unique key finds.
  pub find-append_unique :
      (rs : List R) (r : R)
      → IsUnique key (rs ++ r ∷ [])
      → find (λ x. key x == key r) (rs ++ r ∷ []) ≡ some r
  find-append_unique [] r u = rw (beq_refl (key r)) refl
  find-append_unique (x ∷ rs) r u = rw other (find-append_unique rs r u.1)
    where
      other : (key x == key r) ≡ false
      other = elim (Bool-cases (key x == key r)) [
        | inr no_match ↦ no_match
        | inl match ↦
            (let twin : (key r == key x) ≡ true =
                (e.beq_means (key r) (key x)).1 (sym ((e.beq_means (key x) (key r)).0 match)) in
              let none_like = sym (any-append (λ y. key y == key x) rs r) ∙ u.0 in
              ground (arith, twin, none_like))
      ]
