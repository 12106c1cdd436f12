-- ===== src/Utf8.antt =====
-- UTF-8, as Rust's `str::as_bytes` and `String::from_utf8` have it, over lists of code points.
pub mod Laws
pub mod Lossy
pub mod Sound
use stadhouder.Base.{
  ℕ, zero, suc, ◌+◌, ◌-◌, ◌*◌, ◌/◌, ◌%◌, ◌≤◌, ◌<◌, ◌⊎◌, ◌&&◌, Option, none, some, List, [], ◌∷◌,
  ◌++◌, ltb, leb, if◌then◌else◌, Text,
}

abbrev pub Bytes : Type 0
Bytes = List ℕ

-- A Unicode scalar value: no surrogate.
abbrev pub IsChar : ℕ → Type 0
IsChar c = (c < 0xd800) ⊎ ((0xe000 ≤ c) × (c < 0x110000))

unfoldable pub encode_char : ℕ → Bytes
encode_char c =
    if ltb c 0x80
    then c ∷ []
    else if ltb c 0x800
    then (192 + c / 64) ∷ (128 + c % 64) ∷ []
    else if ltb c 0x10000
    then (224 + c / 4096) ∷ (128 + c / 64 % 64) ∷ (128 + c % 64) ∷ []
    else (240 + c / 262144) ∷ (128 + c / 4096 % 64) ∷ (128 + c / 64 % 64) ∷ (128 + c % 64) ∷ []

-- `s.as_bytes()`
unfoldable pub encode : Text → Bytes
unfolding encode_char
encode [] = []
encode (c ∷ s) = encode_char c ++ encode s

-- What one more byte makes of the bytes read: no character, a whole one, or the first bits `acc` of
-- one that wants `count` more bytes, the next of them between `lo` and `hi`.
pub data Progress : Type 0 where
  invalid : Progress
  whole : ℕ → Progress
  due : ℕ → ℕ → ℕ → ℕ → Progress

unfoldable pub lead : ℕ → Progress
lead b =
    if ltb b 0x80
    then whole b
    else if leb 0xc2 b && leb b 0xdf
    then due 1 0x80 0xbf (b - 0xc0)
    else if leb 0xe0 b && leb b 0xef
    then due 2 (if leb b 0xe0 then 0xa0 else 0x80) (if leb 0xed b && leb b 0xed then 0x9f else 0xbf)
        (b - 0xe0)
    else if leb 0xf0 b && leb b 0xf4
    then due 3 (if leb b 0xf0 then 0x90 else 0x80) (if leb 0xf4 b then 0x8f else 0xbf) (b - 0xf0)
    else invalid

unfoldable pub continue : ℕ → ℕ → ℕ → ℕ → ℕ → Progress
continue zero lo hi acc b = lead b
continue (suc zero) lo hi acc b =
    if leb lo b && leb b hi then whole (acc * 64 + (b - 128)) else invalid
continue (suc (suc k)) lo hi acc b =
    if leb lo b && leb b hi then due (suc k) 0x80 0xbf (acc * 64 + (b - 128)) else invalid

abbrev pub push : ℕ → Option Text → Option Text
push c none = none
push c (some s) = some (c ∷ s)

unfoldable pub decode_from : ℕ → ℕ → ℕ → ℕ → Bytes → Option Text
decode_from zero lo hi acc [] = some []
decode_from (suc k) lo hi acc [] = none
decode_from k lo hi acc (b ∷ s) = elim (continue k lo hi acc b) [
  | invalid ↦ none
  | whole c ↦ push c (decode_from 0 0 0 0 s)
  | due k' lo' hi' acc' ↦ decode_from k' lo' hi' acc' s
]

-- `String::from_utf8(bytes)`
unfoldable pub decode : Bytes → Option Text
unfolding decode_from continue lead
decode s = decode_from 0 0 0 0 s
