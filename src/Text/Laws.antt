-- ===== src/Text/Laws.antt =====
-- Prefixes and suffixes of texts that are put together.
use mathlib.Core.List.{reverse, reverse-append, reverse-reverse}
use stadhouder.Base.{
  ℕ, ◌≡◌, ◌≢◌, refl, ap, inl, inr, true, false, none, some, List, [], ◌∷◌, ◌++◌, arith, Text,
  is_empty, All, if◌then◌else◌, Bool-cases,
}
use stadhouder.Text.{
  onto_first, reverse, is_whitespace, trim_start, trim, split_once, split, strip_prefix,
  strip_suffix, starts_with, ends_with,
}

pub strip_prefix-append : (p s : Text) → strip_prefix p (p ++ s) ≡ some s
unfolding strip_prefix
strip_prefix-append [] s = refl
strip_prefix-append (c ∷ p) s = ground (arith, strip_prefix-append p s)

starts_with-append : (p s : Text) → starts_with p (p ++ s) ≡ true
unfolding starts_with
starts_with-append [] s = refl
starts_with-append (c ∷ p) s = ground (arith, starts_with-append p s)

pub ends_with-append : (s p : Text) → ends_with p (s ++ p) ≡ true
unfolding ends_with
ends_with-append s p = rw (reverse-append s p) (starts_with-append (reverse p) (reverse s))

pub strip_suffix-append : (s p : Text) → strip_suffix p (s ++ p) ≡ some s
unfolding strip_suffix
strip_suffix-append s p =
    rw (reverse-append s p, strip_prefix-append (reverse p) (reverse s))
      (ap some (reverse-reverse s))

trim_start-snoc :
    (s : Text) (c : ℕ)
    → is_whitespace c ≡ true
    → trim_start (s ++ c ∷ []) ≡ (if is_empty (trim_start s) then [] else trim_start s ++ c ∷ [])
unfolding trim_start
trim_start-snoc [] c h = rw h refl
trim_start-snoc (d ∷ s) c h = ground (arith, trim_start-snoc s c h)

is_empty→eq : (s : Text) → is_empty s ≡ true → s ≡ []
is_empty→eq [] e = refl
is_empty→eq (c ∷ s) e = cc

trim_ends :
    (s : Text) (c : ℕ)
    → is_whitespace c ≡ true
    → trim_start (reverse (s ++ c ∷ [])) ≡ trim_start (reverse s)
unfolding trim_start
trim_ends s c h = rw (reverse-append s (c ∷ []), h) refl

-- White space at the end of a text is trimmed away.
pub trim-snoc : (s : Text) (c : ℕ) → is_whitespace c ≡ true → trim (s ++ c ∷ []) ≡ trim s
unfolding trim
trim-snoc s c h = elim (Bool-cases (is_empty (trim_start s))) [
  | inl e ↦ rw (trim_start-snoc s c h, e, is_empty→eq (trim_start s) e) refl
  | inr f ↦ rw (trim_start-snoc s c h, f) (ap reverse (trim_ends (trim_start s) c h))
]

-- A text without the separator is the first piece of a split.
pub split-append :
    (sep : ℕ) (s r : Text) → All (λ c. c ≢ sep) s → split sep (s ++ sep ∷ r) ≡ s ∷ split sep r
unfolding split
split-append sep [] r h = ground arith
split-append sep (c ∷ s) r h = rw (split-append sep s r h.1) (ground (arith, h.0))

pub split_whole : (sep : ℕ) (s : Text) → All (λ c. c ≢ sep) s → split sep s ≡ s ∷ []
unfolding split
split_whole sep [] h = refl
split_whole sep (c ∷ s) h = rw (split_whole sep s h.1) (ground (arith, h.0))

pub split_once-append :
    (sep : ℕ) (s r : Text) → All (λ c. c ≢ sep) s → split_once sep (s ++ sep ∷ r) ≡ some (s, r)
unfolding split_once
split_once-append sep [] r h = ground arith
split_once-append sep (c ∷ s) r h = rw (split_once-append sep s r h.1) (ground (arith, h.0))

pub split_once-none : (sep : ℕ) (s : Text) → All (λ c. c ≢ sep) s → split_once sep s ≡ none
unfolding split_once
split_once-none sep [] h = refl
split_once-none sep (c ∷ s) h = rw (split_once-none sep s h.1) (ground (arith, h.0))

onto_first-append :
    (c : ℕ) (xs ys : List Text)
    → is_empty xs ≡ false
    → onto_first c (xs ++ ys) ≡ onto_first c xs ++ ys
onto_first-append c [] ys h = cc
onto_first-append c (x ∷ xs) ys h = refl

onto_first-pieces : (c : ℕ) (xs : List Text) → is_empty (onto_first c xs) ≡ false
onto_first-pieces c [] = refl
onto_first-pieces c (x ∷ xs) = refl

split-pieces : (sep : ℕ) (s : Text) → is_empty (split sep s) ≡ false
unfolding split
split-pieces sep [] = refl
split-pieces sep (c ∷ s) = ground (arith, onto_first-pieces c (split sep s))

-- The pieces on both sides of a separator.
pub split-join : (sep : ℕ) (s r : Text) → split sep (s ++ sep ∷ r) ≡ split sep s ++ split sep r
unfolding split
split-join sep [] r = ground arith
split-join sep (c ∷ s) r =
    rw (split-join sep s r, onto_first-append c (split sep s) (split sep r) (split-pieces sep s))
      (ground arith)
