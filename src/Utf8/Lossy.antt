-- ===== src/Utf8/Lossy.antt =====
-- `String::from_utf8_lossy`: each maximal part of the bytes that begins no character is replaced.
use stadhouder.Base.{ℕ, zero, suc, ◌<◌, ◌≡◌, refl, [], ◌∷◌, arith, Text, All}
use stadhouder.Utf8.{Bytes, invalid, whole, due, lead, continue}

-- U+FFFD
abbrev pub replacement : ℕ
replacement = 0xfffd

-- A byte that cannot go on is looked at again, as the first of a character.
unfoldable pub lossy_from : ℕ → ℕ → ℕ → ℕ → Bytes → Text
unfolding continue lead
lossy_from zero lo hi acc [] = []
lossy_from (suc k) lo hi acc [] = replacement ∷ []
lossy_from zero lo hi acc (b ∷ s) = elim (lead b) [
  | invalid ↦ replacement ∷ lossy_from 0 0 0 0 s
  | whole c ↦ c ∷ lossy_from 0 0 0 0 s
  | due k' lo' hi' acc' ↦ lossy_from k' lo' hi' acc' s
]
lossy_from (suc k) lo hi acc (b ∷ s) = elim (continue (suc k) lo hi acc b) [
  | invalid ↦ replacement ∷ elim (lead b) [
    | invalid ↦ replacement ∷ lossy_from 0 0 0 0 s
    | whole c ↦ c ∷ lossy_from 0 0 0 0 s
    | due k' lo' hi' acc' ↦ lossy_from k' lo' hi' acc' s
  ]
  | whole c ↦ c ∷ lossy_from 0 0 0 0 s
  | due k' lo' hi' acc' ↦ lossy_from k' lo' hi' acc' s
]

unfoldable pub from_utf8_lossy : Bytes → Text
unfolding lossy_from
from_utf8_lossy s = lossy_from 0 0 0 0 s

-- Bytes below 128 are their own characters.
pub ascii_stays : (s : Bytes) → All (λ b. b < 128) s → from_utf8_lossy s ≡ s
unfolding from_utf8_lossy lossy_from lead
ascii_stays [] h = refl
ascii_stays (b ∷ s) h = ground (arith, h.0, ascii_stays s h.1)
