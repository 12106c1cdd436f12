-- ===== src/Identity.antt =====
-- rust/backend/common/src/identity.rs
use stadhouder.Base.{
  Option, none, some, List, [], ◌∷◌, is_empty, if◌then◌else◌, Text, Result, ok, err, or_fail, ◌>>=◌,
}
use stadhouder.Text.{split}
use stadhouder.Json.{Json}

module _ {V : Type 0} (j : Json V) where
  walk : V → List Text → Option V
  walk current [] = some current
  walk current (segment ∷ rest) = elim (j.get current segment) [
    | none ↦ none
    | some next ↦ walk next rest
  ]

  unfoldable pub resolve_path : V → Text → Option V
  unfolding walk split
  resolve_path value path = walk value (split b'.' path)

  -- The `match` on the value at the path.
  unfoldable pub read_identity : Option V → Result (Option Text)
  read_identity none = ok none
  read_identity (some v) = if j.is_null v then ok none else elim (j.as_str v) [
    | none ↦ err "field is not a string"
    | some s ↦ if is_empty s then ok none else ok (some s)
  ]

  unfoldable pub parse_field : Text → Text → Result (Option Text)
  unfolding resolve_path read_identity
  parse_field body field_path = do
    parsed ← or_fail (j.from_str body) "response is not JSON"
    read_identity (resolve_path parsed field_path)

  -- `fetch url cookie` is the GET request of the ureq library: the body, or the error that stopped it.
  unfoldable pub verify_user :
      (Text → Option Text → Result Text) → Text → Option Text → Text → Result (Option Text)
  unfolding parse_field
  verify_user fetch url cookie_header field_path = do
    body ← fetch url cookie_header
    parse_field body field_path
