-- ===== src/Valkey.antt =====
-- What the program relies on of Valkey's `SETEX` and `GETDEL` (valkey.io/commands), and a store of
-- that kind: an association list with the second at which each entry dies.
pub mod Counters
use yaima.Base.{
  ℕ, ◌+◌, ◌≤◌, ◌<◌, String, ◌≡◌, ◌≢◌, refl, Bool, true, Option, none, some, List, [], ◌∷◌, ◌==◌,
  string_eq, arith, beq_refl, if◌then◌else◌, ltb, suc,
}
use text.Mathlib.TextEquality.{eq_iff}
use yaima.External.{Valkey, ℤ, pos, negsuc}

-- The documented behaviour of an entry that is set, read and deleted.
pub record IsStore {S : Type 0} (v : Valkey S) : Type 0 where
  pub get_set :
      (k value : String) (ttl t now : ℕ) (s : S)
      → now < t + ttl
      → v.get_del now k (v.set_ex t k value ttl s) ≡ some value
  pub get_expired :
      (k value : String) (ttl t now : ℕ) (s : S)
      → t + ttl ≤ now
      → v.get_del now k (v.set_ex t k value ttl s) ≡ none
  pub get_again : (k : String) (t now : ℕ) (s : S) → v.get_del now k (v.after_get_del t k s) ≡ none
  pub get_set_ne :
      (k j value : String) (ttl t now : ℕ) (s : S)
      → k ≢ j
      → v.get_del now j (v.set_ex t k value ttl s) ≡ v.get_del now j s
  pub get_after_ne :
      (k j : String) (t now : ℕ) (s : S)
      → k ≢ j
      → v.get_del now j (v.after_get_del t k s) ≡ v.get_del now j s

pub record Entry : Type 0 where
  pub key : String
  pub value : String
  pub dies : ℕ

-- A counter, with its death if it has an expiry.
pub record Counter : Type 0 where
  pub key : String
  pub count : ℕ
  pub dies : Option ℕ

pub record Store : Type 0 where
  pub entries : List Entry
  pub counters : List Counter

abbrev lookup : ℕ → String → List Entry → Option String
lookup now k [] = none
lookup now k (e ∷ es) =
    if e.key == k then (if ltb now e.dies then some e.value else none) else lookup now k es

abbrev without : String → List Entry → List Entry
without k [] = []
without k (e ∷ es) = let rest = without k es in if e.key == k then rest else e ∷ rest

abbrev alive : ℕ → Option ℕ → Bool
alive now none = true
alive now (some dies) = ltb now dies

abbrev count_of : ℕ → String → List Counter → ℕ
count_of now k [] = 0
count_of now k (c ∷ cs) =
    if c.key == k then (if alive now c.dies then c.count else 0) else count_of now k cs

abbrev bump : ℕ → String → List Counter → List Counter
bump now k [] = record { key = k; count = 1; dies = none } ∷ []
bump now k (c ∷ cs) =
    let rest = bump now k cs in
    if c.key == k
    then (if alive now c.dies
        then record c { count = c.count + 1 }
        else record { key = k; count = 1; dies = none })
      ∷ cs
    else c ∷ rest

abbrev deadline : ℕ → ℤ → ℕ
deadline now (pos n) = now + n
deadline now (negsuc n) = now

abbrev set_deadline : String → ℕ → List Counter → List Counter
set_deadline k dies [] = []
set_deadline k dies (c ∷ cs) =
    let rest = set_deadline k dies cs in
    if c.key == k then record c { dies = some dies } ∷ cs else c ∷ rest

abbrev pub list_store : Valkey Store
list_store = record {
  set_ex = λ now k value ttl s. record s {
    entries = record { key = k; value = value; dies = now + ttl } ∷ s.entries;
  };
  get_del = λ now k s. lookup now k s.entries;
  after_get_del = λ now k s. record s { entries = without k s.entries };
  incr = λ now k s. suc (count_of now k s.counters);
  after_incr = λ now k s. record s { counters = bump now k s.counters };
  expire = λ now k ttl s. record s { counters = set_deadline k (deadline now ttl) s.counters };
}

lookup-without_self : (now : ℕ) (k : String) (es : List Entry) → lookup now k (without k es) ≡ none
lookup-without_self now k [] = refl
lookup-without_self now k (e ∷ es) = ground (arith, lookup-without_self now k es)

lookup-without_ne :
    (now : ℕ) (k j : String) (es : List Entry)
    → k ≢ j
    → lookup now j (without k es) ≡ lookup now j es
lookup-without_ne now k j [] ne = refl
lookup-without_ne now k j (e ∷ es) ne =
    ground (arith, lookup-without_ne now k j es ne, eq_iff e.key k, eq_iff e.key j)

-- The list store behaves as Valkey is documented to.
pub list_store-IsStore : IsStore list_store
list_store-IsStore = record {
  get_set = λ k value ttl t now s h. rw beq_refl (ground arith);
  get_expired = λ k value ttl t now s h. rw beq_refl (ground arith);
  get_again = λ k t now s. lookup-without_self now k s.entries;
  get_set_ne = λ k j value ttl t now s ne. ground (arith, eq_iff k j);
  get_after_ne = λ k j t now s ne. lookup-without_ne now k j s.entries ne;
}
