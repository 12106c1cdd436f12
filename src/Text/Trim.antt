-- ===== src/Text/Trim.antt =====
-- What `trim` leaves begins and ends with no white space.
use mathlib.Core.List.{reverse, reverse-append, reverse-reverse}
use stadhouder.Base.{◌≡◌, refl, ap, inl, inr, false, [], ◌∷◌, ◌++◌, Text, Bool-cases}
use stadhouder.Text.{is_whitespace, trim_start, trim}

abbrev Started : Text → Type 0
Started [] = Unit
Started (c ∷ s) = is_whitespace c ≡ false

trim_start-Started : (s : Text) → Started (trim_start s)
unfolding trim_start
trim_start-Started [] = tt
trim_start-Started (c ∷ s) = elim (Bool-cases (is_whitespace c)) [
  | inl white ↦ rw (trim_start, white) (trim_start-Started s)
  | inr black ↦ rw (trim_start, black) black
]

trim_start-stays : (s : Text) → Started s → trim_start s ≡ s
unfolding trim_start
trim_start-stays [] h = refl
trim_start-stays (c ∷ s) h = rw h refl

Started-front : (p q : Text) → Started (p ++ q) → Started p
Started-front [] q h = tt
Started-front (c ∷ p) q h = h

trim_start-end : (s : Text) → (p : Text) × (p ++ trim_start s ≡ s)
unfolding trim_start
trim_start-end [] = ([], refl)
trim_start-end (c ∷ s) = elim (Bool-cases (is_whitespace c)) [
  | inl white ↦ let (p, e) = trim_start-end s in (c ∷ p, rw (trim_start, white) (ap (◌∷◌ c) e))
  | inr black ↦ ([], rw (trim_start, black) refl)
]

trim-Started : (s : Text) → Started (trim s)
unfolding trim
trim-Started s =
    let a = trim_start s in
    let (p, e) = trim_start-end (reverse a) in
    Started-front (trim s) (reverse p) (
      rw (← reverse-append p (trim_start (reverse a)), e, reverse-reverse a) (trim_start-Started s))

pub trim-trim : (s : Text) → trim (trim s) ≡ trim s
unfolding trim
trim-trim s =
    let b = trim_start (reverse (trim_start s)) in
    rw
      (
        trim_start-stays (trim s) (trim-Started s),
        reverse-reverse b,
        trim_start-stays b (trim_start-Started (reverse (trim_start s))),
      )
      refl
