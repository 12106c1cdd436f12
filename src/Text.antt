-- ===== src/Text.antt =====
-- What the program uses of Rust's `str`, over lists of code points.
use mathlib.Core.List.{reverse}
pub mod Laws
pub mod Lines
pub mod Trim
use stadhouder.Base.{
  ℕ, zero, suc, ◌+◌, ◌-◌, ◌*◌, ◌/◌, ◌%◌, ◌^◌, Bool, true, false, not, ◌&&◌, ◌||◌, Option, none,
  some, List, [], ◌∷◌, ◌++◌, map, Text, take, ltb, leb, ◌==◌, if◌then◌else◌, text_eq,
}
use stadhouder.Base.Int.{ℤ, pos, ◌-ℤ◌}

-- `char::is_whitespace` (the Unicode property White_Space).
unfoldable pub is_whitespace : ℕ → Bool
is_whitespace c =
    (leb 9 c && leb c 13)
    || c == 32
    || c == 0x85
    || c == 0xa0
    || c == 0x1680
    || (leb 0x2000 c && leb c 0x200a)
    || c == 0x2028
    || c == 0x2029
    || c == 0x202f
    || c == 0x205f
    || c == 0x3000

unfoldable pub trim_start : Text → Text
unfolding is_whitespace
trim_start [] = []
trim_start (c ∷ s) = if is_whitespace c then trim_start s else c ∷ s

unfoldable pub trim : Text → Text
unfolding trim_start
trim s = reverse (trim_start (reverse (trim_start s)))

-- `c.to_ascii_lowercase()`
unfoldable pub to_lower : ℕ → ℕ
to_lower c = if leb b'A' c && leb c b'Z' then c + 32 else c

unfoldable pub eq_ignore_ascii_case : Text → Text → Bool
unfolding to_lower
eq_ignore_ascii_case s t = text_eq (map to_lower s) (map to_lower t)

-- `s.split_once(sep)`, at the first `sep`.
unfoldable pub split_once : ℕ → Text → Option (Text × Text)
split_once sep [] = none
split_once sep (c ∷ s) =
    let rest = split_once sep s in
    if c == sep then some ([], s) else elim rest [ none ↦ none | some (k, v) ↦ some (c ∷ k, v) ]

abbrev pub onto_first : ℕ → List Text → List Text
onto_first c [] = (c ∷ []) ∷ []
onto_first c (s ∷ ss) = (c ∷ s) ∷ ss

-- `s.split(sep)`: one more piece than there are separators.
unfoldable pub split : ℕ → Text → List Text
split sep [] = [] ∷ []
split sep (c ∷ s) = if c == sep then [] ∷ split sep s else onto_first c (split sep s)

-- `s.replace(from, to)` for single characters.
unfoldable pub replace : ℕ → ℕ → Text → Text
replace from to [] = []
replace from to (c ∷ s) = (if c == from then to else c) ∷ replace from to s

unfoldable pub strip_prefix : Text → Text → Option Text
strip_prefix [] s = some s
strip_prefix (p ∷ ps) [] = none
strip_prefix (p ∷ ps) (c ∷ s) = if c == p then strip_prefix ps s else none

abbrev reversed : Option Text → Option Text
reversed none = none
reversed (some s) = some (reverse s)

unfoldable pub strip_suffix : Text → Text → Option Text
unfolding strip_prefix
strip_suffix p s = reversed (strip_prefix (reverse p) (reverse s))

unfoldable pub starts_with : Text → Text → Bool
starts_with [] s = true
starts_with (p ∷ ps) [] = false
starts_with (p ∷ ps) (c ∷ s) = if c == p then starts_with ps s else false

unfoldable pub ends_with : Text → Text → Bool
unfolding starts_with
ends_with p s = starts_with (reverse p) (reverse s)

-- A line without its closing carriage return.
drop_cr : Text → Text
drop_cr s = elim (reverse s) [ [] ↦ [] | c ∷ r ↦ if c == 13 then reverse r else s ]

drop_last_empty : List Text → List Text
drop_last_empty [] = []
drop_last_empty ([] ∷ []) = []
drop_last_empty (s ∷ ss) = s ∷ drop_last_empty ss

-- `s.lines()`: pieces ended by a line feed, with a carriage return before it dropped; what stands
-- behind the last line feed is a line only if it is not empty.
strip_lines : List Text → List Text
unfolding drop_cr
strip_lines [] = []
strip_lines (s ∷ []) = s ∷ []
strip_lines (s ∷ t ∷ ss) = drop_cr s ∷ strip_lines (t ∷ ss)

unfoldable pub lines : Text → List Text
unfolding split drop_last_empty strip_lines
lines s = drop_last_empty (strip_lines (split 10 s))

-- The digits of a number, none of which may take it past `limit`.
parse_digits : ℕ → ℕ → Text → Option ℕ
parse_digits limit acc [] = some acc
parse_digits limit acc (c ∷ s) =
    let next = acc * 10 + (c - 48) in
    let rest = parse_digits limit next s in
    if leb 48 c && leb c 57 && leb next limit then rest else none

unfoldable pub digits : ℕ → Text → Option ℕ
unfolding parse_digits
digits limit [] = none
digits limit (c ∷ s) = parse_digits limit 0 (c ∷ s)

-- `s.parse::<u64>()`
unfoldable pub parse_u64 : Text → Option ℕ
unfolding digits
parse_u64 [] = none
parse_u64 (c ∷ s) = if c == b'+' then digits (2 ^ 64 - 1) s else digits (2 ^ 64 - 1) (c ∷ s)

abbrev negated : Option ℕ → Option ℤ
negated none = none
negated (some n) = some (pos 0 -ℤ pos n)

abbrev positive : Option ℕ → Option ℤ
positive none = none
positive (some n) = some (pos n)

-- `s.parse::<i64>()`
unfoldable pub parse_i64 : Text → Option ℤ
unfolding digits ◌-ℤ◌
parse_i64 [] = none
parse_i64 (c ∷ s) =
    if c == b'+'
    then positive (digits (2 ^ 63 - 1) s)
    else if c == b'-'
    then negated (digits (2 ^ 63) s)
    else positive (digits (2 ^ 63 - 1) (c ∷ s))

-- The digits of a number; a number has no more digits than it is, and one for zero.
decimal : ℕ → ℕ → Text
decimal zero n = []
decimal (suc fuel) n =
    let high = decimal fuel (n / 10) in
    if ltb n 10 then (48 + n) ∷ [] else high ++ (48 + n % 10) ∷ []

unfoldable pub to_decimal : ℕ → Text
unfolding decimal
to_decimal n = decimal (suc n) n
