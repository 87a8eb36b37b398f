-- ===== src/Tokens/Registry/Statements.antt =====
-- Each statement of the program as steps of the registry.
use mathlib.Core.Path.{subst, fun_ext}
use yaima.Base.{
  ℕ, String, ◌≡◌, refl, ap, sym, ◌∙◌, Bool, true, false, some, inl, inr, arith, ◌==◌, string_eq,
  nat_eq, Bool-cases, Option-cases, find, update_where, beq_refl, find-eq-some, find-update_where,
  find-none-update_where, find-eq-none, if◌then◌else◌,
}
use text.Mathlib.TextEquality.{eq_iff}
use yaima.Models.{Uuid}
use yaima.Db.{Db, RefreshTokenRow, revoke}
use yaima.Db.Schema.{IsConsistent}
use yaima.Tokens.Registry.{Evolves, spend, Entry, spent, Registry, entry_of, registry, set}
use yaima.Tokens.Registry.Table.{find_by_key, update_where_none}

abbrev pub with_revoked : Uuid → Db → Db
with_revoked id db = record db {
  refresh_tokens = update_where (λ t. t.id == id) revoke db.refresh_tokens;
}

-- An entry that is written again changes nothing.
set_same : (g : Registry) (key : String) (e : Entry) → g key ≡ e → set key e g ≡ g
set_same g key e at = fun_ext λ j. elim (Bool-cases (j == key)) [
  | inl same ↦ rw same (sym at ∙ ap g (sym ((eq_iff j key).0 same)))
  | inr other ↦ rw other
]

-- What an update by id makes of the row that a lookup key finds.
module _ (db : Db) (c : IsConsistent db) (id : Uuid) (t : RefreshTokenRow)
    (found : find (λ t. t.id == id) db.refresh_tokens ≡ some t) where
  same_id : t.id ≡ id
  same_id = ground (arith, find-eq-some (λ t. t.id == id) db.refresh_tokens t found)

  pub found_by_key : find (λ x. x.lookup_key == t.lookup_key) db.refresh_tokens ≡ some t
  found_by_key =
      find_by_key {K = String} (λ x. x.lookup_key) (λ t. t.id == id) db.refresh_tokens t
        c.tokens_lookup_key found

  -- Another row that a lookup key finds has another id.
  other_id :
      (key : String) (y : RefreshTokenRow)
      → (key == t.lookup_key) ≡ false
      → find (λ x. x.lookup_key == key) db.refresh_tokens ≡ some y
      → (y.id == id) ≡ false
  other_id key y other h = elim (Bool-cases (y.id == id)) [
    | inr differs ↦ differs
    | inl same ↦
        (let by_id =
            find_by_key {K = ℕ} (λ x. x.id) (λ x. x.lookup_key == key) db.refresh_tokens y
              c.tokens_pkey h in
          let at_id : find (λ x. x.id == id) db.refresh_tokens ≡ some y =
            subst (λ n. find (λ x. x.id == n) db.refresh_tokens ≡ some y) (ground (arith, same))
              by_id in
          let keyed = find-eq-some (λ x. x.lookup_key == key) db.refresh_tokens y h in
          let is : y ≡ t = cc in
          ground (
            arith,
            eq_iff key t.lookup_key,
            eq_iff y.lookup_key key,
            keyed,
            ap (λ x. x.lookup_key) is,
          ))
  ]

  hit_at :
      (key : String)
      → (key == t.lookup_key) ≡ true
      → registry (with_revoked id db) key ≡ spent t.user_id
  hit_at key same =
      let is : t.lookup_key ≡ key = sym ((eq_iff key t.lookup_key).0 same) in
      let there : find (λ x. x.lookup_key == key) db.refresh_tokens ≡ some t =
        subst (λ k. find (λ x. x.lookup_key == k) db.refresh_tokens ≡ some t) is found_by_key in
      ap entry_of (
        find-update_where (λ x. x.lookup_key == key) (λ x. x.id == id) revoke db.refresh_tokens t
          (λ x. refl) there)
      ∙ rw same_id (rw (beq_refl id))

  miss_at :
      (key : String)
      → (key == t.lookup_key) ≡ false
      → registry (with_revoked id db) key ≡ registry db key
  miss_at key other = elim (Option-cases (find (λ x. x.lookup_key == key) db.refresh_tokens)) [
    | inl gone ↦
        ap entry_of (
          find-none-update_where (λ x. x.lookup_key == key) (λ x. x.id == id) revoke
            db.refresh_tokens (λ x. refl) gone)
        ∙ ap entry_of (sym gone)
    | inr (y, h) ↦
        ap entry_of (
          find-update_where (λ x. x.lookup_key == key) (λ x. x.id == id) revoke db.refresh_tokens y
            (λ x. refl) h)
        ∙ ap (λ b. entry_of (some (if b then revoke y else y))) (other_id key y other h)
        ∙ ap entry_of (sym h)
  ]

  -- Revoking the row with an id spends its lookup key.
  pub with_revoked-registry :
      registry (with_revoked id db) ≡ set t.lookup_key (spent t.user_id) (registry db)
  with_revoked-registry = fun_ext λ key. elim (Bool-cases (key == t.lookup_key)) [
    | inl same ↦ rw same (hit_at key same)
    | inr other ↦ rw other (miss_at key other)
  ]

abbrev revoking : Uuid → RefreshTokenRow → Bool
revoking id t = t.id == id

-- What revoking the row with an id does to the registry: nothing, or it spends a live key.
pub with_revoked-Evolves :
    (f : Registry) (db : Db) (id : Uuid)
    → IsConsistent db
    → Evolves f (registry db)
    → Evolves f (registry (with_revoked id db))
with_revoked-Evolves f db id c ev = elim (Option-cases (find (revoking id) db.refresh_tokens)) [
  | inl gone ↦
      subst (λ ts. Evolves f (λ key. entry_of (find (λ t. t.lookup_key == key) ts)))
        (sym (
          update_where_none (revoking id) revoke db.refresh_tokens
            (find-eq-none (revoking id) db.refresh_tokens gone)))
        ev
  | inr (t, found) ↦
      (let at : registry db t.lookup_key ≡ entry_of (some t) =
          ap entry_of (found_by_key db c id t found) in
        subst (Evolves f) (sym (with_revoked-registry db c id t found))
          (elim (Bool-cases t.revoked) [
            | inr alive ↦ spend t.lookup_key t.user_id ev (at ∙ rw alive)
            | inl dead ↦
                subst (Evolves f)
                  (sym (set_same (registry db) t.lookup_key (spent t.user_id) (at ∙ rw dead))) ev
          ]))
]
