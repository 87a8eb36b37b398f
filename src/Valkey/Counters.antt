-- ===== src/Valkey/Counters.antt =====
-- What the rate limiter relies on of Valkey's `INCR` and `EXPIRE`, and that the list store behaves so.
use yaima.Base.{
  ℕ, suc, ◌+◌, String, ◌≡◌, ◌≢◌, refl, ap, false, Option, none, some, List, [], ◌∷◌, ◌==◌,
  string_eq, arith, beq_refl, if◌then◌else◌, Bool-cases, inl, inr,
}
use text.Mathlib.TextEquality.{eq_iff}
use yaima.External.{Valkey, ℤ, pos}
use yaima.Valkey.{Counter, alive, count_of, bump, set_deadline, list_store}

-- A counter's value and the second at which it dies, if it has an expiry.
abbrev pub Entry : Type 0
Entry = Option (ℕ × Option ℕ)

abbrev pub count_at : ℕ → Entry → ℕ
count_at now none = 0
count_at now (some (n, dies)) = if alive now dies then n else 0

abbrev pub bumped : ℕ → Entry → ℕ × Option ℕ
bumped now none = (1, none)
bumped now (some (n, dies)) = if alive now dies then (n + 1, dies) else (1, none)

-- `INCR` counts a key on, or from one if it has no counter or one that has expired; `EXPIRE` gives a
-- counter its expiry. Neither touches another key.
pub record IsCounter {S : Type 0} (v : Valkey S) : Type 0 where
  pub entry : String → S → Entry
  pub incr_law : (k : String) (now : ℕ) (s : S) → v.incr now k s ≡ suc (count_at now (entry k s))
  pub entry_incr :
      (k : String) (now : ℕ) (s : S)
      → entry k (v.after_incr now k s) ≡ some (bumped now (entry k s))
  pub entry_incr_ne :
      (k j : String) (now : ℕ) (s : S) → k ≢ j → entry j (v.after_incr now k s) ≡ entry j s
  pub entry_expire :
      (k : String) (now ttl n : ℕ) (dies : Option ℕ) (s : S)
      → entry k s ≡ some (n, dies)
      → entry k (v.expire now k (pos ttl) s) ≡ some (n, some (now + ttl))
  pub entry_expire_ne :
      (k j : String) (now : ℕ) (ttl : ℤ) (s : S)
      → k ≢ j
      → entry j (v.expire now k ttl s) ≡ entry j s

abbrev entry_of : String → List Counter → Entry
entry_of k [] = none
entry_of k (c ∷ cs) = if c.key == k then some (c.count, c.dies) else entry_of k cs

count_of_lem :
    (now : ℕ) (k : String) (cs : List Counter) → count_of now k cs ≡ count_at now (entry_of k cs)
count_of_lem now k [] = refl
count_of_lem now k (c ∷ cs) = elim (Bool-cases (c.key == k)) [
  | inl same ↦ rw same
  | inr other ↦ rw other (count_of_lem now k cs)
]

entry_of-bump :
    (now : ℕ) (k : String) (cs : List Counter)
    → entry_of k (bump now k cs) ≡ some (bumped now (entry_of k cs))
entry_of-bump now k [] = rw (beq_refl k)
entry_of-bump now k (c ∷ cs) = elim (Bool-cases (c.key == k)) [
  | inl same ↦ elim (Bool-cases (alive now c.dies)) [
    | inl lives ↦ simp (same, lives)
    | inr dead ↦ simp (same, dead, beq_refl k)
  ]
  | inr other ↦ simp (other, entry_of-bump now k cs)
]

module _ (k j : String) (ne : k ≢ j) where
  apart : (k == j) ≡ false
  apart = ground (arith, eq_iff k j)

  entry_of-bump_ne : (now : ℕ) (cs : List Counter) → entry_of j (bump now k cs) ≡ entry_of j cs
  entry_of-bump_ne now [] = rw apart
  entry_of-bump_ne now (c ∷ cs) = elim (Bool-cases (c.key == k)) [
    | inl same ↦
        (let away : (c.key == j) ≡ false = ground (arith, eq_iff c.key k, eq_iff c.key j) in
          elim (Bool-cases (alive now c.dies)) [
            | inl lives ↦ simp (same, lives, away)
            | inr dead ↦ simp (same, dead, away, apart)
          ])
    | inr other ↦
        rw other
          (ap (λ o. if c.key == j then some (c.count, c.dies) else o) (entry_of-bump_ne now cs))
  ]

  entry_of-deadline_ne :
      (dies : ℕ) (cs : List Counter) → entry_of j (set_deadline k dies cs) ≡ entry_of j cs
  entry_of-deadline_ne dies [] = refl
  entry_of-deadline_ne dies (c ∷ cs) = elim (Bool-cases (c.key == k)) [
    | inl same ↦
        (let away : (c.key == j) ≡ false = ground (arith, eq_iff c.key k, eq_iff c.key j) in
          simp (same, away))
    | inr other ↦
        rw other (
          ap (λ o. if c.key == j then some (c.count, c.dies) else o) (entry_of-deadline_ne dies cs))
  ]

entry_of-deadline :
    (k : String) (dies n : ℕ) (old : Option ℕ) (cs : List Counter)
    → entry_of k cs ≡ some (n, old)
    → entry_of k (set_deadline k dies cs) ≡ some (n, some dies)
entry_of-deadline k dies n old [] h = cc
entry_of-deadline k dies n old (c ∷ cs) h = elim (Bool-cases (c.key == k)) [
  | inl same ↦ ground arith
  | inr other ↦ ground (arith, entry_of-deadline k dies n old cs)
]

-- The list store counts as Valkey is documented to.
pub list_store-IsCounter : IsCounter list_store
list_store-IsCounter = record {
  entry = λ k s. entry_of k s.counters;
  incr_law = λ k now s. ap suc (count_of_lem now k s.counters);
  entry_incr = λ k now s. entry_of-bump now k s.counters;
  entry_incr_ne = λ k j now s ne. entry_of-bump_ne k j ne now s.counters;
  entry_expire = λ k now ttl n dies s h. entry_of-deadline k _ n dies s.counters h;
  entry_expire_ne = λ k j now ttl s ne. entry_of-deadline_ne k j ne _ s.counters;
}

-- A store with nothing in it has no counter.
pub list_store_empty :
    (key : String) → list_store-IsCounter.entry key (record { entries = []; counters = [] }) ≡ none
unfolding list_store-IsCounter
list_store_empty key = refl
