-- ===== src/Tools/Fileserver/Output/Laws.antt =====
-- Headers that a program prints are the headers of the answer.
use mathlib.Core.List.{append_assoc, append-nil}
use stadhouder.Base.{
  ◌≡◌, ◌≢◌, refl, ap, ◌∙◌, inl, inr, true, false, some, List, [], ◌∷◌, ◌++◌, map, arith, Text,
  codes, All, All-append, Option-cases,
}
use stadhouder.Text.{trim, eq_ignore_ascii_case, is_whitespace}
use stadhouder.Text.Laws.{trim-snoc, split_once-append}
use stadhouder.Utf8.{Bytes}
use stadhouder.Utf8.Lossy.{ascii_stays}
use stadhouder.Tools.Fileserver.Output.{
  Http, responded, Builder, builder, split_output, read_line, read_lines, add_header, finish,
  from_parts, build_response_from_cgi_output,
}
use stadhouder.Tools.Fileserver.Output.Block.{
  IsPlain, block, heads, HasText, split_at-block, heads-ascii, with_cr, split-heads,
}

-- `name: value`
abbrev pub line : Text × Text → Text
line (name, value) = name ++ 58 ∷ 32 ∷ value

-- A header that is written on one line, without white space around name and value, which is not the
-- status.
pub record IsHeader (h : Text × Text) : Type 0 where
  pub plain_name : All IsPlain h.0
  pub plain_value : All IsPlain h.1
  pub no_colon : All (λ c. c ≢ 58) h.0
  pub name_trimmed : trim h.0 ≡ h.0
  pub value_trimmed : trim (32 ∷ h.1) ≡ h.1
  pub line_trimmed : trim (line h) ≡ line h
  pub no_status : eq_ignore_ascii_case h.0 (codes "status") ≡ false

line-HasText : (name value : Text) → HasText (line (name, value))
line-HasText [] value = refl
line-HasText (c ∷ name) value = refl

pub lines-HasText : (hs : List (Text × Text)) → All HasText (map line hs)
lines-HasText [] = tt
lines-HasText ((n, v) ∷ hs) = (line-HasText n v, lines-HasText hs)

pub colon_IsPlain : IsPlain 58
colon_IsPlain = record {
  ascii = omega arith;
  no_cr = λ e. omega (arith, e);
  no_lf = λ e. omega (arith, e);
}

pub space_IsPlain : IsPlain 32
space_IsPlain = record {
  ascii = omega arith;
  no_cr = λ e. omega (arith, e);
  no_lf = λ e. omega (arith, e);
}

pub lines-IsPlain : (hs : List (Text × Text)) → All IsHeader hs → All (All IsPlain) (map line hs)
lines-IsPlain [] h = tt
lines-IsPlain ((n, v) ∷ hs) (h, t) = (
  All-append _ n (58 ∷ 32 ∷ v) h.plain_name (colon_IsPlain, (space_IsPlain, h.plain_value)),
  lines-IsPlain hs t,
)

module _ (http : Http) where
  -- The http crate takes the header as it is.
  pub record Accepts (h : Text × Text) : Type 0 where
    pub name : http.header_name h.0 ≡ some h.0
    pub value : http.header_value h.1 ≡ true

  read_lines-with_cr :
      (ls : List Text) (b : Builder) → read_lines http (with_cr ls) b ≡ read_lines http ls b
  unfolding read_lines
  read_lines-with_cr [] b = refl
  read_lines-with_cr (l ∷ []) b = refl
  read_lines-with_cr (l ∷ m ∷ ms) b = elim (Option-cases (read_line http (trim l) b)) [
    | inl e ↦ rw (read_lines, trim-snoc l 13 refl, e) refl
    | inr (b', e) ↦ rw (read_lines, trim-snoc l 13 refl, e) (read_lines-with_cr (m ∷ ms) b')
  ]

  -- The answer to an output with proper header lines.
  pub build_response-block :
      (l : Text) (ls : List Text) (body : Bytes)
      → All (All IsPlain) (l ∷ ls)
      → All HasText (l ∷ ls)
      → build_response_from_cgi_output http (block (l ∷ ls) body)
        ≡ finish http body (read_lines http (l ∷ ls) builder)
  unfolding build_response_from_cgi_output split_output from_parts is_whitespace
  build_response-block l ls body h k =
      rw
        (
          split_at-block (l ∷ ls) body (omega arith) h k,
          ascii_stays (heads (l ∷ ls)) (heads-ascii (l ∷ ls) h),
          split-heads l ls h,
          read_lines-with_cr (l ∷ ls) builder,
        )
        refl

  pub read_line-header :
      (h : Text × Text) (b : Builder)
      → IsHeader h
      → read_line http (trim (line h)) b ≡ some (add_header http h.0 h.1 b)
  unfolding read_line
  read_line-header (n, v) b h =
      rw
        (
          h.line_trimmed,
          line-HasText n v,
          split_once-append 58 n (32 ∷ v) h.no_colon,
          h.name_trimmed,
          h.value_trimmed,
          h.no_status,
        )
        refl

  add_header-accepted :
      (h : Text × Text) (b : Builder)
      → Accepts h
      → add_header http h.0 h.1 b ≡ record b { headers = b.headers ++ h ∷ [] }
  unfolding add_header
  add_header-accepted h b a = rw (add_header, a.name, a.value) refl

  pub read_lines-cons :
      (l : Text) (ls : List Text) (b b' : Builder)
      → read_line http (trim l) b ≡ some b'
      → read_lines http (l ∷ ls) b ≡ read_lines http ls b'
  unfolding read_lines
  read_lines-cons l ls b b' e = rw (e, read_lines) refl

  pub read_lines-headers :
      (hs : List (Text × Text)) (b : Builder)
      → All IsHeader hs
      → All Accepts hs
      → read_lines http (map line hs) b ≡ some (record b { headers = b.headers ++ hs })
  unfolding read_lines
  read_lines-headers [] b h a = rw (append-nil b.headers) refl
  read_lines-headers (x ∷ hs) b h a =
      let b' : Builder = record b { headers = b.headers ++ x ∷ [] } in
      read_lines-cons (line x) (map line hs) b b'
        (read_line-header x b h.0 ∙ ap some (add_header-accepted x b a.0))
      ∙ read_lines-headers hs b' h.1 a.1
      ∙ ap (λ all. some (record b { headers = all })) (append_assoc b.headers (x ∷ []) hs)

  -- Headers that a program prints, one to a line, then an empty line and any bytes: the answer has
  -- exactly these headers in this order, the status 200, and these bytes as its body.
  pub build_response-headers :
      (h : Text × Text) (hs : List (Text × Text)) (body : Bytes)
      → All IsHeader (h ∷ hs)
      → All Accepts (h ∷ hs)
      → build_response_from_cgi_output http (block (map line (h ∷ hs)) body)
        ≡ responded (record { status = 200; headers = h ∷ hs; body = body })
  unfolding finish
  build_response-headers h hs body is accepted =
      build_response-block (line h) (map line hs) body (lines-IsPlain (h ∷ hs) is)
        (lines-HasText (h ∷ hs))
      ∙ ap (finish http body) (read_lines-headers (h ∷ hs) builder is accepted)
