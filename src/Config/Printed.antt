-- ===== src/Config/Printed.antt =====
-- A configuration file that was written key by key.
use mathlib.Core.List.{foldl}
use stadhouder.Base.{
  ◌≡◌, ◌≢◌, refl, ap, ◌∙◌, false, Option, none, some, [], ◌∷◌, ◌++◌, map, arith, Text, codes, All,
  is_empty, text_eq, text_eq_iff, inl, inr, Bool-cases, Assoc, IsMap, lookup, contains_key-lookup,
  lookup-insert, insert,
}
use stadhouder.Text.{trim, starts_with}
use stadhouder.Text.Laws.{split_once-append}
use stadhouder.Text.Lines.{IsInner, printed, lines-printed}
use stadhouder.Float.{Float}
use stadhouder.Config.{put_line, put_pair, parse_kv, from_values, from_str}

-- `KEY=value`
abbrev pub line : Text × Text → Text
line (k, v) = k ++ b'=' ∷ v

-- A key and a value that stand on one line, with no white space around either.
pub record IsSetting (e : Text × Text) : Type 0 where
  pub key_trimmed : trim e.0 ≡ e.0
  pub value_trimmed : trim e.1 ≡ e.1
  pub line_trimmed : trim (line e) ≡ line e
  pub no_sign : All (λ c. c ≢ b'=') e.0
  pub no_comment : starts_with (codes "#") (line e) ≡ false
  pub inner : All IsInner (line e)

line-text : (k v : Text) → is_empty (line (k, v)) ≡ false
line-text [] v = refl
line-text (c ∷ k) v = refl

put_line-line :
    (values : Assoc Text) (e : Text × Text)
    → IsSetting e
    → put_line values (line e) ≡ insert e.0 e.1 values
unfolding put_line put_pair
put_line-line values (k, v) h =
    rw
      (
        h.line_trimmed,
        line-text k v,
        h.no_comment,
        split_once-append b'=' k v h.no_sign,
        h.key_trimmed,
        h.value_trimmed,
      )
      refl

abbrev first_of : Option Text → Option Text → Option Text
first_of none o = o
first_of (some v) o = some v

lookup-foldl :
    (k : Text) (es values : Assoc Text)
    → All IsSetting es
    → IsMap es
    → lookup k (foldl put_line values (map line es)) ≡ first_of (lookup k es) (lookup k values)
unfolding lookup
lookup-foldl k [] values h u = refl
lookup-foldl k ((i, w) ∷ es) values h u =
    ap (λ a. lookup k (foldl put_line a (map line es))) (put_line-line values (i, w) h.0)
    ∙ lookup-foldl k es (insert i w values) h.1 u.1
    ∙ ap (first_of (lookup k es)) (lookup-insert i k w values)
    ∙ elim (Bool-cases (text_eq i k)) [
      | inl same ↦
          let none_later : lookup k es ≡ none =
            ground (arith, (text_eq_iff i k).0 same, contains_key-lookup i es, u.0) in
          rw (same, none_later) refl
      | inr other ↦ rw other refl
    ]

first_of-none : (o : Option Text) → first_of o none ≡ o
first_of-none none = refl
first_of-none (some v) = refl

lines-IsInner : (es : Assoc Text) → All IsSetting es → All (All IsInner) (map line es)
lines-IsInner [] h = tt
lines-IsInner (e ∷ es) h = (h.0.inner, lines-IsInner es h.1)

lookup-parse_kv :
    (k : Text) (es : Assoc Text)
    → All IsSetting es
    → IsMap es
    → lookup k (parse_kv (printed (map line es))) ≡ lookup k es
unfolding parse_kv lookup
lookup-parse_kv k es h u =
    rw (lines-printed (map line es) (lines-IsInner es h))
      (lookup-foldl k es [] h u ∙ first_of-none (lookup k es))

-- Settings that were written one to a line, each key once, are read as these settings: whatever the
-- configuration or the error is that they stand for, the file stands for it too.
pub from_str-printed :
    {F : Type 0} (f : Float F) (es : Assoc Text)
    → All IsSetting es
    → IsMap es
    → from_str f (printed (map line es)) ≡ from_values f es
unfolding from_str from_values
from_str-printed f es h u =
    rw
      (
        lookup-parse_kv (codes "TEST_ENV") es h u,
        lookup-parse_kv (codes "MEMORY_LIMIT_MB") es h u,
        lookup-parse_kv (codes "MEMORY_REJECT_PCT") es h u,
        lookup-parse_kv (codes "COOKIE_NAME") es h u,
        lookup-parse_kv (codes "USER_ID_URL") es h u,
        lookup-parse_kv (codes "USER_ID_JSON") es h u,
      )
      refl
