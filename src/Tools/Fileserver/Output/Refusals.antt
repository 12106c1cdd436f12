-- ===== src/Tools/Fileserver/Output/Refusals.antt =====
-- Outputs that are not answered with what the program printed.
use stadhouder.Base.{
  ◌<◌, ◌≡◌, ◌≢◌, refl, ap, ◌∙◌, inl, inr, Bool, true, not, ◌||◌, none, some, List, [], ◌∷◌, ◌++◌,
  map, arith, Text, codes, any, All, All-append, Option-cases,
}
use stadhouder.Text.{trim, split}
use stadhouder.Text.Laws.{split_whole, split_once-none, split-join}
use stadhouder.Utf8.{Bytes}
use stadhouder.Utf8.Lossy.{ascii_stays}
use stadhouder.Tools.Fileserver.Output.{
  Http, panicked, malformed_cgi_response, Builder, builder, crlf2, split_output, read_line,
  read_lines, add_header, finish, from_parts, build_response_from_cgi_output,
}
use stadhouder.Tools.Fileserver.Output.Block.{
  IsPlain, block, HasText, split_at-end, All-ascii, All-no_cr, All-no_lf,
}
use stadhouder.Tools.Fileserver.Output.Laws.{
  IsHeader, line, lines-IsPlain, lines-HasText, read_line-header, read_lines-cons,
  build_response-block,
}

-- A line that is no header: something stands on it, but no colon.
pub record IsJunk (l : Text) : Type 0 where
  pub plain : All IsPlain l
  pub no_colon : All (λ c. c ≢ 58) (trim l)
  pub text : HasText (trim l)

module _ (http : Http) where
  read_line-junk : (l : Text) (b : Builder) → IsJunk l → read_line http (trim l) b ≡ none
  unfolding read_line
  read_line-junk l b h = rw (h.text, split_once-none 58 (trim l) h.no_colon) refl

  read_lines-junk :
      (before junk : List Text) (l : Text) (b : Builder)
      → IsJunk l
      → read_lines http (before ++ l ∷ junk) b ≡ none
  unfolding read_lines
  read_lines-junk [] after l b h = rw (read_lines, read_line-junk l b h) refl
  read_lines-junk (k ∷ ks) after l b h = elim (Option-cases (read_line http (trim k) b)) [
    | inl e ↦ rw (read_lines, e) refl
    | inr (b', e) ↦ rw (read_lines, e) (read_lines-junk ks after l b' h)
  ]

  -- A line without a colon anywhere in the header block makes the answer the 500 page, whatever the
  -- other lines and the body are.
  build_response-junk :
      (k : Text) (ks : List Text) (l : Text) (after : List Text) (body : Bytes)
      → All (All IsPlain) (k ∷ ks ++ l ∷ after)
      → All HasText (k ∷ ks ++ l ∷ after)
      → IsJunk l
      → build_response_from_cgi_output http (block (k ∷ ks ++ l ∷ after) body)
        ≡ malformed_cgi_response (codes "non-header line in the header block")
  unfolding finish
  build_response-junk k ks l after body plain text junk =
      build_response-block http k (ks ++ l ∷ after) body plain text
      ∙ ap (finish http body) (read_lines-junk (k ∷ ks) after l builder junk)

  -- The http crate does not take the name or the value.
  unfoldable pub refuses : Text × Text → Bool
  refuses (name, value) = elim (http.header_name name) [
    | none ↦ true
    | some n ↦ not (http.header_value value)
  ]

  add_header-refused :
      (h : Text × Text) (b : Builder)
      → (add_header http h.0 h.1 b).refused ≡ (b.refused || refuses h)
  unfolding add_header refuses
  add_header-refused (n, v) b = ground arith

  read_lines-refused :
      (hs : List (Text × Text)) (b : Builder)
      → All IsHeader hs
      → (b' : Builder) × (read_lines http (map line hs) b ≡ some b')
        × (b'.refused ≡ (b.refused || any refuses hs))
  unfolding read_lines
  read_lines-refused [] b is = (b, refl, ground arith)
  read_lines-refused (h ∷ hs) b is =
      let b₁ = add_header http h.0 h.1 b in
      let (b', e, r) = read_lines-refused hs b₁ is.1 in
      (
        b',
        read_lines-cons http (line h) (map line hs) b b₁ (read_line-header http h b is.0) ∙ e,
        r ∙ ap (λ x. x || any refuses hs) (add_header-refused h b) ∙ ground arith,
      )

  -- Among proper header lines one header that the http crate does not take is enough for a panic: no
  -- answer is built, not the 500 page either.
  pub build_response_panics :
      (h : Text × Text) (hs : List (Text × Text)) (body : Bytes)
      → All IsHeader (h ∷ hs)
      → any refuses (h ∷ hs) ≡ true
      → build_response_from_cgi_output http (block (map line (h ∷ hs)) body) ≡ panicked
  unfolding finish
  build_response_panics h hs body is bad =
      let (b, e, r) = read_lines-refused (h ∷ hs) builder is in
      build_response-block http (line h) (map line hs) body (lines-IsPlain (h ∷ hs) is)
        (lines-HasText (h ∷ hs))
      ∙ ap (finish http body) e
      ∙ rw (r, bad) refl

  -- An output with no carriage return before some line without a colon that ends with two line ends
  -- in the CRLF form: that line is taken for a header, and the answer is the 500 page, even if an empty
  -- line stands before it, so that it belongs to the body.
  pub build_response-late_crlf :
      (s l : Text) (rest : Bytes)
      → All (λ c. c < 128) s
      → All (λ c. c ≢ 13) s
      → IsJunk l
      → build_response_from_cgi_output http (s ++ 10 ∷ l ++ crlf2 ++ rest)
        ≡ malformed_cgi_response (codes "non-header line in the header block")
  unfolding build_response_from_cgi_output split_output from_parts finish
  build_response-late_crlf s l rest ascii no_cr junk =
      let head = s ++ 10 ∷ l in
      let cr = All-append _ s (10 ∷ l) no_cr ((λ e. omega (arith, e)), All-no_cr l junk.plain) in
      let low = All-append _ s (10 ∷ l) ascii (omega arith, All-ascii l junk.plain) in
      rw
        (
          split_at-end head rest cr,
          ascii_stays head low,
          split-join 10 s l,
          split_whole 10 l (All-no_lf l junk.plain),
          read_lines-junk (split 10 s) [] l builder junk,
        )
        refl
