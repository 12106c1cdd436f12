-- ===== src/Tools/Fileserver/Output/Block.antt =====
-- The header block of a program's output is found, and cut into its lines.
use mathlib.Core.List.{append_assoc}
use stadhouder.Base.{
  ℕ, ◌<◌, ◌≡◌, ◌≢◌, refl, ap, sym, ◌∙◌, false, Option, none, some, List, [], ◌∷◌, ◌++◌, arith, Text,
  length, is_empty, All, All-append, ◌==◌,
}
use stadhouder.Text.{starts_with, split}
use stadhouder.Text.Laws.{split-append, split_whole}
use stadhouder.Utf8.{Bytes}
use stadhouder.Tools.Fileserver.Output.{crlf2, before, split_at}

-- A character of a header line.
pub record IsPlain (c : ℕ) : Type 0 where
  pub ascii : c < 128
  pub no_cr : c ≢ 13
  pub no_lf : c ≢ 10

-- The header block with its end, and the body behind it.
abbrev pub block : List Text → Bytes → Bytes
block [] body = crlf2 ++ body
block (l ∷ []) body = l ++ crlf2 ++ body
block (l ∷ m ∷ ms) body = l ++ 13 ∷ 10 ∷ block (m ∷ ms) body

-- The header block.
abbrev pub heads : List Text → Text
heads [] = []
heads (l ∷ []) = l
heads (l ∷ m ∷ ms) = l ++ 13 ∷ 10 ∷ heads (m ∷ ms)

abbrev pub behind : Bytes → Option (Bytes × Bytes) → Option (Bytes × Bytes)
behind s none = none
behind s (some (h, r)) = some (s ++ h, r)

abbrev pub HasText : Text → Type 0
HasText l = is_empty l ≡ false

pub split_at-end :
    (l body : Bytes) → All (λ c. c ≢ 13) l → split_at crlf2 (l ++ crlf2 ++ body) ≡ some (l, body)
unfolding split_at starts_with
split_at-end [] body h = refl
split_at-end (c ∷ l) body h = rw (split_at-end l body h.1) (ground (arith, h.0))

pub All-no_cr : (l : Text) → All IsPlain l → All (λ c. c ≢ 13) l
All-no_cr [] h = tt
All-no_cr (c ∷ l) h = (h.0.no_cr, All-no_cr l h.1)

behind-cons :
    (c : ℕ) (s : Bytes) (o : Option (Bytes × Bytes)) → before c (behind s o) ≡ behind (c ∷ s) o
behind-cons c s none = refl
behind-cons c s (some (h, r)) = refl

two-behind : (o : Option (Bytes × Bytes)) → before 13 (before 10 o) ≡ behind (13 ∷ 10 ∷ []) o
two-behind none = refl
two-behind (some (h, r)) = refl

differs : (c d : ℕ) → c ≢ d → (c == d) ≡ false
differs c d h = ground (arith, h)

split_at-line :
    (l : Bytes) (c : ℕ) (r : Bytes)
    → All IsPlain l
    → c ≢ 13
    → split_at crlf2 (l ++ 13 ∷ 10 ∷ c ∷ r) ≡ behind (l ++ 13 ∷ 10 ∷ []) (split_at crlf2 (c ∷ r))
unfolding split_at starts_with
split_at-line [] c r h k = rw (differs c 13 k) (two-behind (before c (split_at crlf2 r)))
split_at-line (d ∷ l) c r h k =
    rw (split_at-line l c r h.1 k, ← behind-cons d (l ++ 13 ∷ 10 ∷ []) (split_at crlf2 (c ∷ r)))
      (ground (arith, h.0.no_cr))

behind-some :
    (s : Bytes) (o : Option (Bytes × Bytes)) (h r : Bytes)
    → o ≡ some (h, r)
    → behind s o ≡ some (s ++ h, r)
behind-some s o h r e = rw e refl

pub split_at-block :
    (ls : List Text) (body : Bytes)
    → 0 < length ls
    → All (All IsPlain) ls
    → All HasText ls
    → split_at crlf2 (block ls body) ≡ some (heads ls, body)
split_at-block [] body n h k = absurd (omega arith)
split_at-block (l ∷ []) body n h k = split_at-end l body (All-no_cr l h.0)
split_at-block (l ∷ [] ∷ ms) body n h k = cc (k.1.0)
split_at-block (l ∷ (c ∷ m) ∷ []) body n h k =
    split_at-line l c (m ++ crlf2 ++ body) h.0 h.1.0.0.no_cr
    ∙ behind-some (l ++ 13 ∷ 10 ∷ []) _ (c ∷ m) body
        (split_at-end (c ∷ m) body (All-no_cr (c ∷ m) h.1.0))
    ∙ ap (λ s. some (s, body)) (append_assoc l (13 ∷ 10 ∷ []) (c ∷ m))
split_at-block (l ∷ (c ∷ m) ∷ m' ∷ ms) body n h k =
    split_at-line l c (m ++ 13 ∷ 10 ∷ block (m' ∷ ms) body) h.0 h.1.0.0.no_cr
    ∙ behind-some (l ++ 13 ∷ 10 ∷ []) _ (heads ((c ∷ m) ∷ m' ∷ ms)) body
        (split_at-block ((c ∷ m) ∷ m' ∷ ms) body (omega arith) h.1 k.1)
    ∙ ap (λ s. some (s, body)) (append_assoc l (13 ∷ 10 ∷ []) (heads ((c ∷ m) ∷ m' ∷ ms)))

pub All-no_lf : (l : Text) → All IsPlain l → All (λ c. c ≢ 10) l
All-no_lf [] h = tt
All-no_lf (c ∷ l) h = (h.0.no_lf, All-no_lf l h.1)

pub All-ascii : (l : Text) → All IsPlain l → All (λ c. c < 128) l
All-ascii [] h = tt
All-ascii (c ∷ l) h = (h.0.ascii, All-ascii l h.1)

pub heads-ascii : (ls : List Text) → All (All IsPlain) ls → All (λ c. c < 128) (heads ls)
heads-ascii [] h = tt
heads-ascii (l ∷ []) h = All-ascii l h.0
heads-ascii (l ∷ m ∷ ms) h =
    All-append _ l (13 ∷ 10 ∷ heads (m ∷ ms)) (All-ascii l h.0)
      (omega arith, (omega arith, heads-ascii (m ∷ ms) h.1))

-- The lines of the block, which but for the last end with a carriage return.
abbrev pub with_cr : List Text → List Text
with_cr [] = []
with_cr (l ∷ []) = l ∷ []
with_cr (l ∷ m ∷ ms) = (l ++ 13 ∷ []) ∷ with_cr (m ∷ ms)

pub split-heads :
    (l : Text) (ls : List Text)
    → All (All IsPlain) (l ∷ ls)
    → split 10 (heads (l ∷ ls)) ≡ with_cr (l ∷ ls)
split-heads l [] h = split_whole 10 l (All-no_lf l h.0)
split-heads l (m ∷ ms) h =
    ap (split 10) (sym (append_assoc l (13 ∷ []) (10 ∷ heads (m ∷ ms))))
    ∙ split-append 10 (l ++ 13 ∷ []) (heads (m ∷ ms))
        (All-append _ l (13 ∷ []) (All-no_lf l h.0) ((λ e. omega (arith, e)), tt))
    ∙ ap (◌∷◌ (l ++ 13 ∷ [])) (split-heads m ms h.1)
