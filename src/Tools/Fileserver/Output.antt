-- ===== src/Tools/Fileserver/Output.antt =====
-- What the web server makes of a program's output.
pub mod Block
pub mod Laws
pub mod Refusals
use stadhouder.Base.{
  ℕ, ◌-◌, ◌^◌, Bool, true, false, not, ◌&&◌, Option, none, some, List, [], ◌∷◌, ◌++◌, Text, codes,
  length, take, drop, is_empty, ltb, leb, ◌==◌, if◌then◌else◌,
}
use stadhouder.Text.{
  is_whitespace, trim, trim_start, eq_ignore_ascii_case, starts_with, split, split_once, digits,
}
use stadhouder.Utf8.{Bytes, encode}
use stadhouder.Utf8.Lossy.{from_utf8_lossy}

-- The http crate's checks: a header's name in the form in which it is sent, if it is one, and whether
-- a text can be a header's value.
pub record Http : Type 0 where
  pub header_name : Text → Option Text
  pub header_value : Text → Bool

pub record Response : Type 0 where
  pub status : ℕ
  pub headers : List (Text × Text)
  pub body : Bytes

-- `body(…).unwrap()` panics where the builder has met a header that http does not take.
pub data Outcome : Type 0 where
  responded : Response → Outcome
  panicked : Outcome

-- The log entry is left out. The reason is the text up to its formatted part.
unfoldable pub malformed_cgi_response : Text → Outcome
malformed_cgi_response reason = responded (record {
  status = 500;
  headers = (codes "content-type", codes "text/plain") ∷ [];
  body = encode (
      codes "500 malformed CGI output: "
      ++ reason
      ++ 10
        ∷ codes
            "(strict parsing, matching Apache mod_cgi - a real host would answer its generic 500 page here)"
      ++ 10 ∷ []);
})

abbrev pub before : ℕ → Option (Bytes × Bytes) → Option (Bytes × Bytes)
before b none = none
before b (some (h, r)) = some (b ∷ h, r)

-- What stands before the first place at which the pattern stands, and what stands behind that place
-- (`windows`, `position` and the slices).
unfoldable pub split_at : Bytes → Bytes → Option (Bytes × Bytes)
unfolding starts_with
split_at pattern [] = if is_empty pattern then some ([], []) else none
split_at pattern (b ∷ s) =
    let later = split_at pattern s in
    if starts_with pattern (b ∷ s) then some ([], drop (length pattern) (b ∷ s)) else before b later

or_else : {A : Type 0} → Option A → Option A → Option A
or_else (some a) o = some a
or_else none o = o

abbrev pub crlf2 : Bytes
crlf2 = 13 ∷ 10 ∷ 13 ∷ 10 ∷ []

-- The header block and the body.
unfoldable pub split_output : Bytes → Option (Bytes × Bytes)
unfolding split_at or_else
split_output raw = or_else (split_at crlf2 raw) (split_at (10 ∷ 10 ∷ []) raw)

-- The builder, with whether it has met a header that http does not take.
pub record Builder : Type 0 where
  pub status_code : ℕ
  pub headers : List (Text × Text)
  pub refused : Bool

word : Text → Text
unfolding is_whitespace
word [] = []
word (c ∷ s) = let rest = word s in if is_whitespace c then [] else c ∷ rest

-- `split_whitespace().next()`
unfoldable pub first_word : Text → Option Text
unfolding trim_start word
first_word s = elim (trim_start s) [ [] ↦ none | c ∷ r ↦ some (word (c ∷ r)) ]

-- `parse::<u16>()`
unfoldable pub parse_u16 : Text → Option ℕ
unfolding digits
parse_u16 [] = none
parse_u16 (c ∷ s) = if c == b'+' then digits (2 ^ 16 - 1) s else digits (2 ^ 16 - 1) (c ∷ s)

-- `StatusCode::from_u16(code).unwrap_or(StatusCode::OK)`
status_in : Option ℕ → ℕ → ℕ
status_in none status = status
status_in (some code) status = if leb 100 code && ltb code 1000 then code else 200

code_in : Option Text → Option ℕ
unfolding parse_u16
code_in none = none
code_in (some code_str) = parse_u16 code_str

-- A status that is no number leaves the one before it.
unfoldable pub set_status : Text → Builder → Builder
unfolding first_word code_in status_in
set_status value b = record b { status_code = status_in (code_in (first_word value)) b.status_code }

abbrev pub builder : Builder
builder = record { status_code = 200; headers = []; refused = false }

module _ (http : Http) where
  -- `builder.header(name, value)`
  unfoldable pub add_header : Text → Text → Builder → Builder
  add_header name value b = elim (http.header_name name) [
    | none ↦ record b { refused = true }
    | some n ↦
        if http.header_value value
        then record b { headers = b.headers ++ (n, value) ∷ [] }
        else record b { refused = true }
  ]

  put_header : Text → Text → Builder → Builder
  unfolding set_status add_header eq_ignore_ascii_case
  put_header name value b =
      if eq_ignore_ascii_case name (codes "status")
      then set_status value b
      else add_header name value b

  -- One line, trimmed; `none` where it is no header.
  read_parts : Option (Text × Text) → Builder → Option Builder
  unfolding put_header trim
  read_parts none b = none
  read_parts (some (name, value)) b = some (put_header (trim name) (trim value) b)

  unfoldable pub read_line : Text → Builder → Option Builder
  unfolding read_parts split_once
  read_line line b = if is_empty line then some b else read_parts (split_once b':' line) b

  -- The loop over the lines. `trim` takes the carriage returns at their ends as well.
  unfoldable pub read_lines : List Text → Builder → Option Builder
  unfolding read_line trim
  read_lines [] b = some b
  read_lines (line ∷ lines) b = elim (read_line (trim line) b) [
    | none ↦ none
    | some b' ↦ read_lines lines b'
  ]

  unfoldable pub finish : Bytes → Option Builder → Outcome
  unfolding malformed_cgi_response
  finish body none = malformed_cgi_response (codes "non-header line in the header block")
  finish body (some b) =
      if b.refused
      then panicked
      else responded (record { status = b.status_code; headers = b.headers; body = body })

  from_parts : Option (Bytes × Bytes) → Outcome
  unfolding malformed_cgi_response finish read_lines from_utf8_lossy split
  from_parts none = malformed_cgi_response (codes "no header/body separator in the output")
  from_parts (some (header_bytes, body_bytes)) =
      finish body_bytes (read_lines (split 10 (from_utf8_lossy header_bytes)) builder)

  unfoldable pub build_response_from_cgi_output : Bytes → Outcome
  unfolding split_output from_parts
  build_response_from_cgi_output raw = from_parts (split_output raw)
