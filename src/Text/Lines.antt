-- ===== src/Text/Lines.antt =====
-- The lines of a text that was put together of lines.
use mathlib.Core.List.{reverse, reverse-append, reverse-reverse}
use stadhouder.Base.{
  ℕ, ◌≡◌, ◌≢◌, refl, ap, sym, ◌∙◌, List, [], ◌∷◌, ◌++◌, arith, Text, All, All-append,
}
use stadhouder.Text.{split, lines, drop_cr, strip_lines, drop_last_empty}
use stadhouder.Text.Laws.{split-append}

-- A character that does not end a line.
abbrev pub IsInner : ℕ → Type 0
IsInner c = (c ≢ 10) × (c ≢ 13)

-- Each line with its line feed.
abbrev pub printed : List Text → Text
printed [] = []
printed (l ∷ ls) = l ++ 10 ∷ printed ls

All-reverse : (s : Text) → All IsInner s → All IsInner (reverse s)
All-reverse [] h = tt
All-reverse (c ∷ s) h =
    rw (reverse-append (c ∷ []) s)
      (All-append IsInner (reverse s) (c ∷ []) (All-reverse s h.1) (h.0, tt))

drop_cr-reversed : (s r : Text) → reverse s ≡ r → All IsInner r → drop_cr s ≡ s
unfolding drop_cr
drop_cr-reversed s [] e h = rw (e, drop_cr) (sym (ap reverse e) ∙ reverse-reverse s)
drop_cr-reversed s (c ∷ r) e h = rw (e, drop_cr) (ground (arith, h.0.1))

drop_cr-inner : (s : Text) → All IsInner s → drop_cr s ≡ s
drop_cr-inner s h = drop_cr-reversed s (reverse s) refl (All-reverse s h)

All-no_lf : (s : Text) → All IsInner s → All (λ c. c ≢ 10) s
All-no_lf [] h = tt
All-no_lf (c ∷ s) h = (h.0.0, All-no_lf s h.1)

split-printed : (ls : List Text) → All (All IsInner) ls → split 10 (printed ls) ≡ ls ++ [] ∷ []
unfolding split
split-printed [] h = refl
split-printed (l ∷ ls) h =
    split-append 10 l (printed ls) (All-no_lf l h.0) ∙ ap (◌∷◌ l) (split-printed ls h.1)

strip_lines-printed :
    (ls : List Text) → All (All IsInner) ls → strip_lines (ls ++ [] ∷ []) ≡ ls ++ [] ∷ []
unfolding strip_lines
strip_lines-printed [] h = refl
strip_lines-printed (l ∷ []) h = rw (drop_cr-inner l h.0) refl
strip_lines-printed (l ∷ m ∷ ls) h =
    rw (drop_cr-inner l h.0) (ap (◌∷◌ l) (strip_lines-printed (m ∷ ls) h.1))

drop_last_empty-printed : (ls : List Text) → drop_last_empty (ls ++ [] ∷ []) ≡ ls
unfolding drop_last_empty
drop_last_empty-printed [] = refl
drop_last_empty-printed ([] ∷ []) = refl
drop_last_empty-printed ([] ∷ m ∷ ls) = ap (◌∷◌ []) (drop_last_empty-printed (m ∷ ls))
drop_last_empty-printed ((c ∷ l) ∷ ls) = ap (◌∷◌ (c ∷ l)) (drop_last_empty-printed ls)

pub lines-printed : (ls : List Text) → All (All IsInner) ls → lines (printed ls) ≡ ls
unfolding lines
lines-printed ls h = rw (split-printed ls h, strip_lines-printed ls h) (drop_last_empty-printed ls)
