-- ===== src/Cookie/Header.antt =====
-- Which cookies a browser's header names.
use mathlib.Core.List.{append-nil}
use stadhouder.Base.{
  ◌≡◌, ◌≢◌, refl, ap, ◌∙◌, ◌||◌, some, List, [], ◌∷◌, ◌++◌, map, arith, Text, All, any, text_eq,
  holds, Assoc,
}
use stadhouder.Text.{split, trim, trim_start, is_whitespace}
use stadhouder.Text.Laws.{split-append, split_whole, split_once-append}
use stadhouder.Cookie.{names_cookie, has_cookie}

abbrev pair : Text × Text → Text
pair (k, v) = k ++ b'=' ∷ v

-- A name without white space around it, and no sign in it or its value that separates.
pub record IsCookie (e : Text × Text) : Type 0 where
  pub trimmed : trim e.0 ≡ e.0
  pub no_sign : All (λ c. c ≢ b'=') e.0
  pub no_semicolon : All (λ c. c ≢ b';') (pair e)

-- Each cookie after the first, with its separator before it.
abbrev further : Assoc Text → Text
further [] = []
further (e ∷ es) = b';' ∷ (b' ' ∷ pair e) ++ further es

-- `a=1; b=2`
abbrev pub header : Assoc Text → Text
header [] = []
header (e ∷ es) = pair e ++ further es

abbrev names : Assoc Text → List Text
names = map λ e. e.0

names_cookie-pair :
    (name : Text) (e : Text × Text) → IsCookie e → names_cookie name (pair e) ≡ text_eq e.0 name
unfolding names_cookie
names_cookie-pair name (k, v) h =
    rw (names_cookie, split_once-append b'=' k v h.no_sign, h.trimmed) refl

names_cookie-space :
    (name : Text) (e : Text × Text)
    → IsCookie e
    → names_cookie name (b' ' ∷ pair e) ≡ text_eq e.0 name
unfolding names_cookie trim trim_start is_whitespace
names_cookie-space name (k, v) h =
    rw (names_cookie, split_once-append b'=' (b' ' ∷ k) v (omega arith, h.no_sign))
      (ap (λ t. text_eq t name) h.trimmed)

any-split :
    (name s : Text) (es : Assoc Text)
    → All (λ c. c ≢ b';') s
    → All IsCookie es
    → any (names_cookie name) (split b';' (s ++ further es))
      ≡ (names_cookie name s || holds (names es) name)
any-split name s [] h hs = rw (append-nil s, split_whole b';' s h) (ground arith)
any-split name s (e ∷ es) h hs =
    rw
      (
        split-append b';' s ((b' ' ∷ pair e) ++ further es) h,
        any-split name (b' ' ∷ pair e) es (omega arith, hs.0.no_semicolon) hs.1,
        names_cookie-space name e hs.0,
      )
      (ground arith)

-- A header as browsers write it has exactly the cookies that were put into it: one of a name that is a
-- part of another's is not taken for it, and no value is taken for a name.
pub has_cookie-header :
    (es : Assoc Text) (name : Text)
    → All IsCookie es
    → has_cookie (some (header es)) name ≡ holds (names es) name
unfolding has_cookie names_cookie split
has_cookie-header [] name h = refl
has_cookie-header (e ∷ es) name h =
    any-split name (pair e) es h.0.no_semicolon h.1
    ∙ rw (names_cookie-pair name e h.0) (ground arith)
