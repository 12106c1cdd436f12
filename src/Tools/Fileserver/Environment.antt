-- ===== src/Tools/Fileserver/Environment.antt =====
-- The environment that the web server runs a program in.
use stadhouder.Base.{
  IsMap, ℕ, ◌-◌, ◌≡◌, refl, ap, sym, ◌∙◌, inl, inr, Bool, true, false, ◌&&◌, ◌||◌, Option, none,
  some, List, [], ◌∷◌, ◌++◌, map, arith, Text, codes, length, leb, ◌==◌, if◌then◌else◌, Bool-cases,
  text_eq, text_eq_iff, Assoc, lookup, contains_key, insert, lookup-insert,
}
use stadhouder.Text.{starts_with, to_decimal}
use stadhouder.Utf8.{Bytes}
use stadhouder.Tools.Fileserver.{Script}

pub record AppState : Type 0 where
  pub root : Text
  pub port : ℕ

-- The header's names are in lower case, as the http crate has them; a value that is not visible ASCII
-- is none.
pub record Request : Type 0 where
  pub method : Text
  pub uri : Text
  pub query : Option Text
  pub remote_ip : Text
  pub headers : List (Text × Option Text)
  pub body : Bytes

-- `to_uppercase`, for the names of headers, which are ASCII.
upper : ℕ → ℕ
upper c = if leb b'a' c && leb c b'z' then c - 32 else c

env_char : ℕ → ℕ
unfolding upper
env_char c = if c == b'-' then b'_' else upper c

unfoldable pub header_to_env_name : Text → Text
unfolding env_char
header_to_env_name name = codes "HTTP_" ++ map env_char name

unfoldable pub or_blank : Option Text → Text
or_blank none = []
or_blank (some s) = s

-- `headers.get(name)`, the first of that name, if its value is a text.
unfoldable pub header_text : Text → List (Text × Option Text) → Option Text
header_text name [] = none
header_text name ((n, v) ∷ hs) = if text_eq n name then v else header_text name hs

is_content : Text → Bool
is_content name = text_eq name (codes "content-type") || text_eq name (codes "content-length")

set_header : Text × Option Text → Assoc Text → Assoc Text
unfolding header_to_env_name is_content
set_header (name, none) env = env
set_header (name, some value) env =
    if is_content name then env else insert (header_to_env_name name) value env

-- The loop over the headers; of two with one name the last one counts.
unfoldable pub set_headers : List (Text × Option Text) → Assoc Text → Assoc Text
unfolding set_header
set_headers [] env = env
set_headers (h ∷ hs) env = set_headers hs (set_header h env)

-- The variables that are set before, each by one call of `env`.
unfoldable pub set_all : Assoc Text → Assoc Text → Assoc Text
set_all [] env = env
set_all ((k, v) ∷ kvs) env = set_all kvs (insert k v env)

unfoldable pub meta_variables : AppState → Request → Script → Assoc Text
unfolding to_decimal or_blank header_text
meta_variables state r script =
    (codes "GATEWAY_INTERFACE", codes "CGI/1.1")
    ∷ (codes "SERVER_PROTOCOL", codes "HTTP/1.1")
    ∷ (codes "SERVER_SOFTWARE", codes "fileserver-cgi-dev/0.1")
    ∷ (codes "SERVER_NAME", codes "localhost")
    ∷ (codes "SERVER_PORT", to_decimal state.port)
    ∷ (codes "REQUEST_METHOD", r.method)
    ∷ (codes "SCRIPT_NAME", codes "/cgi-bin/" ++ script.name)
    ∷ (codes "PATH_INFO", script.path_info)
    ∷ (codes "REQUEST_URI", r.uri)
    ∷ (codes "QUERY_STRING", or_blank r.query)
    ∷ (codes "REMOTE_ADDR", r.remote_ip)
    ∷ (codes "DOCUMENT_ROOT", state.root)
    ∷ (codes "CONTENT_LENGTH", to_decimal (length r.body))
    ∷ (codes "CONTENT_TYPE", or_blank (header_text (codes "content-type") r.headers))
    ∷ []

-- On top of the server's own environment.
unfoldable pub cgi_environment : AppState → Request → Script → Assoc Text → Assoc Text
unfolding set_headers set_all meta_variables
cgi_environment state r script inherited =
    set_headers r.headers (set_all (meta_variables state r script) inherited)

-- The name has the prefix of the variables that come from headers.
abbrev pub of_header : Text → Bool
of_header k = starts_with (codes "HTTP_") k

header_name-of_header : (name : Text) → of_header (header_to_env_name name) ≡ true
unfolding header_to_env_name starts_with
header_name-of_header name = refl

other_key : (name k : Text) → of_header k ≡ false → text_eq (header_to_env_name name) k ≡ false
other_key name k h = elim (Bool-cases (text_eq (header_to_env_name name) k)) [
  | inl same ↦ cc (sym (header_name-of_header name) ∙ ap of_header ((text_eq_iff _ k).0 same) ∙ h)
  | inr differs ↦ differs
]

lookup-set_header :
    (h : Text × Option Text) (env : Assoc Text) (k : Text)
    → of_header k ≡ false
    → lookup k (set_header h env) ≡ lookup k env
unfolding set_header
lookup-set_header (name, none) env k h = refl
lookup-set_header (name, some v) env k h =
    ground (arith, lookup-insert (header_to_env_name name) k v env, other_key name k h)

lookup-set_headers :
    (hs : List (Text × Option Text)) (env : Assoc Text) (k : Text)
    → of_header k ≡ false
    → lookup k (set_headers hs env) ≡ lookup k env
unfolding set_headers
lookup-set_headers [] env k h = refl
lookup-set_headers (x ∷ hs) env k h =
    lookup-set_headers hs (set_header x env) k h ∙ lookup-set_header x env k h

lookup-set_all :
    (m env : Assoc Text) (k : Text)
    → IsMap m
    → lookup k (set_all m env) ≡ (if contains_key k m then lookup k m else lookup k env)
unfolding set_all lookup contains_key
lookup-set_all [] env k h = refl
lookup-set_all ((j, v) ∷ m) env k h = elim (Bool-cases (text_eq j k)) [
  | inl same ↦
      let e = (text_eq_iff j k).0 same in
      lookup-set_all m (insert j v env) k h.1
      ∙ ground (arith, lookup-insert j k v env, same, ap (λ i. contains_key i m) e, h.0)
  | inr other ↦
      lookup-set_all m (insert j v env) k h.1 ∙ ground (arith, lookup-insert j k v env, other)
]

meta_variables-IsMap :
    (state : AppState) (r : Request) (script : Script) → IsMap (meta_variables state r script)
unfolding meta_variables contains_key
meta_variables-IsMap state r script = (
  refl,
  (
    refl,
    (
      refl,
      (refl, (refl, (refl, (refl, (refl, (refl, (refl, (refl, (refl, (refl, (refl, tt))))))))))),
    ),
  ),
)

lookup-cgi_environment :
    (state : AppState) (r : Request) (script : Script) (inherited : Assoc Text) (k : Text)
    → of_header k ≡ false
    → lookup k (cgi_environment state r script inherited) ≡ (
        if contains_key k (meta_variables state r script)
        then lookup k (meta_variables state r script)
        else lookup k inherited)
unfolding cgi_environment
lookup-cgi_environment state r script inherited k h =
    lookup-set_headers r.headers (set_all (meta_variables state r script) inherited) k h
    ∙ lookup-set_all (meta_variables state r script) inherited k
        (meta_variables-IsMap state r script)

-- The request with other headers.
abbrev pub with_headers : List (Text × Option Text) → Request → Request
with_headers hs r = record r { headers = hs }

meta_variables-with_headers :
    (state : AppState) (r : Request) (script : Script) (hs : List (Text × Option Text)) (k : Text)
    → text_eq (codes "CONTENT_TYPE") k ≡ false
    → (lookup k (meta_variables state (with_headers hs r) script)
        ≡ lookup k (meta_variables state r script))
      × (contains_key k (meta_variables state (with_headers hs r) script)
          ≡ contains_key k (meta_variables state r script))
unfolding meta_variables lookup contains_key
meta_variables-with_headers state r script hs k h = rw h (refl, refl)

-- No header of a request reaches a variable outside of those named after headers, but for
-- CONTENT_TYPE, which is the header of that name: whatever other headers the same request has, each of
-- these variables has the same value, and REMOTE_ADDR is the address of the connection.
pub cgi_environment-own :
    (state : AppState) (r : Request) (script : Script) (inherited : Assoc Text)
    (hs : List (Text × Option Text)) (k : Text)
    → of_header k ≡ false
    → text_eq (codes "CONTENT_TYPE") k ≡ false
    → (lookup k (cgi_environment state (with_headers hs r) script inherited)
        ≡ lookup k (cgi_environment state r script inherited))
      × (lookup (codes "CONTENT_TYPE") (cgi_environment state (with_headers hs r) script inherited)
          ≡ some (or_blank (header_text (codes "content-type") hs)))
      × (lookup (codes "REMOTE_ADDR") (cgi_environment state (with_headers hs r) script inherited)
          ≡ some r.remote_ip)
unfolding meta_variables lookup contains_key starts_with
cgi_environment-own state r script inherited hs k h other =
    let r' = with_headers hs r in
    let same = meta_variables-with_headers state r script hs k other in
    (
      lookup-cgi_environment state r' script inherited k h
          ∙ rw (same.0, same.1) (sym (lookup-cgi_environment state r script inherited k h)),
      lookup-cgi_environment state r' script inherited (codes "CONTENT_TYPE") refl,
      lookup-cgi_environment state r' script inherited (codes "REMOTE_ADDR") refl,
    )
