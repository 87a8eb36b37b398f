-- ===== src/Base/Texts.antt =====
-- The pieces of Rust's `str` that the program uses.
use Prim.Native.Nat.{ℕ, zero, suc, ◌/◌, ◌%◌}
use Prim.Native.Char.{code}
use Prim.Native.String.{String, ◌++◌}
use mathlib.Core.Path.{◌≡◌, refl}
use mathlib.Core.Bool.{Bool, true, false, ◌&&◌, ◌||◌}
use mathlib.Core.Option.{Option, none, some}
use text.Mathlib.Text.{find?}
use yaima.Base.Tests.{◌==◌, leb, ltb, nat_eq, if◌then◌else◌}

-- `s.contains(sub)`
abbrev pub contains : String → String → Bool
contains s sub = elim (find? s sub) [ none ↦ false | some _ ↦ true ]

-- `s.split(c).next()`, which is never `None`: the text up to the first `c`.
abbrev pub first_field : ℕ → String → String
first_field c String.[] = String.[]
first_field c (String.◌∷◌ x s) = if code x == c then String.[] else String.◌∷◌ x (first_field c s)

-- `s.is_empty()`
abbrev pub is_empty : String → Bool
is_empty String.[] = true
is_empty (String.◌∷◌ x s) = false

-- `char::is_whitespace`, the Unicode property `White_Space`.
abbrev pub is_whitespace : ℕ → Bool
is_whitespace c =
    (leb 9 c && leb c 13)
    || c == 32
    || c == 0x85
    || c == 0xa0
    || c == 0x1680
    || (leb 0x2000 c && leb c 0x200a)
    || c == 0x2028
    || c == 0x2029
    || c == 0x202f
    || c == 0x205f
    || c == 0x3000

abbrev pub trim_start : String → String
trim_start String.[] = String.[]
trim_start (String.◌∷◌ x s) = if is_whitespace (code x) then trim_start s else String.◌∷◌ x s

abbrev pub trim_end : String → String
trim_end String.[] = String.[]
trim_end (String.◌∷◌ x s) =
    let rest = trim_end s in
    if is_whitespace (code x) && is_empty rest then String.[] else String.◌∷◌ x rest

-- `s.trim()`
abbrev pub trim : String → String
trim s = trim_end (trim_start s)

-- `s.strip_prefix(p)`
abbrev pub strip_prefix : String → String → Option String
strip_prefix String.[] s = some s
strip_prefix (String.◌∷◌ p ps) String.[] = none
strip_prefix (String.◌∷◌ p ps) (String.◌∷◌ x s) =
    if code x == code p then strip_prefix ps s else none

abbrev digit : ℕ → String
digit d =
    if d == 0
    then "0"
    else if d == 1
    then "1"
    else if d == 2
    then "2"
    else if d == 3
    then "3"
    else if d == 4
    then "4"
    else if d == 5
    then "5"
    else if d == 6
    then "6"
    else if d == 7
    then "7"
    else if d == 8
    then "8"
    else "9"

-- The last `fuel` digits of `n`, without leading zeros, in front of `rest`.
unfoldable pub decimal_onto : ℕ → ℕ → String → String
decimal_onto zero n rest = rest
decimal_onto (suc fuel) n rest =
    let longer = decimal_onto fuel (n / 10) (digit (n % 10) ++ rest) in
    if ltb n 10 then digit n ++ rest else longer

-- `u64::to_string`, whose values have at most twenty digits.
unfoldable pub to_decimal : ℕ → String
unfolding decimal_onto
to_decimal n = decimal_onto 20 n ""

to_decimal_runs : to_decimal 604800 ≡ "604800"
unfolding to_decimal
to_decimal_runs = refl

trim_runs : trim " a b  " ≡ "a b"
trim_runs = refl

strip_runs : strip_prefix "Bearer " "Bearer abc" ≡ some "abc"
strip_runs = refl

first_runs : first_field b'@' "alice@example.com" ≡ "alice"
first_runs = refl

contains_runs : contains "duplicate key \"users_email_key\"" "users_email_key" ≡ true
contains_runs = refl
