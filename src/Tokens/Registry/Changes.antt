-- ===== src/Tokens/Registry/Changes.antt =====
-- What the other statements on `refresh_tokens` make of the registry: the insert issues a key, and the
-- update by user spends every live key of the user.
use mathlib.Core.Path.{subst, fun_ext}
use yaima.Base.{
  String, ◌≡◌, refl, ap, sym, ◌∙◌, Bool, false, some, inl, inr, arith, ◌==◌, string_eq, nat_eq,
  Bool-cases, Option-cases, find, update_where, beq_refl, find-update_where, find-none-update_where,
  if◌then◌else◌, ◌&&◌, not, [], ◌∷◌, ◌++◌, has_key, find-append_new, find-append_old,
  find-none_of_any,
}
use text.Mathlib.TextEquality.{eq_iff}
use yaima.Models.{Uuid}
use yaima.Db.{Db, RefreshTokenRow, revoke}
use yaima.Tokens.Registry.{absent, live, entry_of, registry, set, unless_of, spend_all}

abbrev pub with_inserted : RefreshTokenRow → Db → Db
with_inserted t db = record db {
  refresh_tokens = db.refresh_tokens ++ record t { revoked = false } ∷ [];
}

abbrev pub is_live_of : Uuid → RefreshTokenRow → Bool
is_live_of id t = t.user_id == id && not t.revoked

abbrev pub with_all_revoked : Uuid → Db → Db
with_all_revoked id db = record db {
  refresh_tokens = update_where (is_live_of id) revoke db.refresh_tokens;
}

-- The keys are tested for equality in both orders.
key_sym : (j key : String) → (j == key) ≡ (key == j)
key_sym j key = elim (Bool-cases (j == key)) [
  | inl same ↦ ground (arith, eq_iff j key, eq_iff key j, beq_refl j)
  | inr other ↦ elim (Bool-cases (key == j)) [
    | inr other' ↦ cc
    | inl same ↦ ground (arith, eq_iff j key, eq_iff key j, beq_refl j)
  ]
]

module _ (db : Db) (t : RefreshTokenRow)
    (free : has_key (λ x. x.lookup_key) t.lookup_key db.refresh_tokens ≡ false) where
  pub free-absent : registry db t.lookup_key ≡ absent
  free-absent = ap entry_of (find-none_of_any _ db.refresh_tokens free)

  inserted_at :
      (key : String)
      → registry (with_inserted t db) key ≡ set t.lookup_key (live t.user_id) (registry db) key
  inserted_at key = elim (Bool-cases (key == t.lookup_key)) [
    | inl same ↦
        (let is : t.lookup_key ≡ key = sym ((eq_iff key t.lookup_key).0 same) in
          let new =
            find-append_new (λ x. x.lookup_key == t.lookup_key) db.refresh_tokens
              (record t { revoked = false }) free in
          subst
            (λ k.
              entry_of (find (λ x. x.lookup_key == k) (with_inserted t db).refresh_tokens)
              ≡ set t.lookup_key (live t.user_id) (registry db) k)
            is (ap entry_of new ∙ rw (beq_refl t.lookup_key)))
    | inr other ↦
        (let old =
            find-append_old (λ x. x.lookup_key == key) db.refresh_tokens
              (record t { revoked = false }) (sym (key_sym key t.lookup_key) ∙ other) in
          ap entry_of old ∙ rw other)
  ]

  -- An insert issues its key.
  pub with_inserted-registry :
      registry (with_inserted t db) ≡ set t.lookup_key (live t.user_id) (registry db)
  with_inserted-registry = fun_ext inserted_at

-- Revoking what is live of a user spends the entry of a row, if it is live and the user's.
revoked_entry :
    (id : Uuid) (t : RefreshTokenRow)
    → entry_of (some (if is_live_of id t then revoke t else t)) ≡ unless_of id (entry_of (some t))
revoked_entry id t = elim (Bool-cases t.revoked) [
  | inl dead ↦ elim (Bool-cases (t.user_id == id)) [
    | inl own ↦ simp (dead, own)
    | inr other ↦ simp (dead, other)
  ]
  | inr alive ↦ elim (Bool-cases (t.user_id == id)) [
    | inl own ↦ simp (alive, own)
    | inr other ↦ simp (alive, other)
  ]
]

-- The update by user spends every live key of the user.
pub with_all_revoked-registry :
    (db : Db) (id : Uuid) → registry (with_all_revoked id db) ≡ spend_all id (registry db)
with_all_revoked-registry db id = fun_ext λ key.
    elim (Option-cases (find (λ x. x.lookup_key == key) db.refresh_tokens)) [
      | inl gone ↦
          ap entry_of (
            find-none-update_where (λ x. x.lookup_key == key) (is_live_of id) revoke
              db.refresh_tokens (λ x. refl) gone)
          ∙ ap (λ o. unless_of id (entry_of o)) (sym gone)
      | inr (t, h) ↦
          ap entry_of (
            find-update_where (λ x. x.lookup_key == key) (is_live_of id) revoke db.refresh_tokens t
              (λ x. refl) h)
          ∙ revoked_entry id t
          ∙ ap (λ o. unless_of id (entry_of o)) (sym h)
    ]
