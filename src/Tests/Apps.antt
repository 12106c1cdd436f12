-- ===== src/Tests/Apps.antt =====
-- The theorems on the test application and the development web server at concrete inputs.
use stadhouder.Utf8.{IsChar, decode}
use stadhouder.Base.{
  Option, ℕ, ◌≤◌, ◌<◌, ◌≡◌, refl, inl, Bool, true, ◌&&◌, none, some, [], ◌∷◌, ◌++◌, arith, Text,
  codes, length, take, is_empty, All, ltb, if◌then◌else◌, text_eq, lookup, ◌⊎◌, List, false,
}
use stadhouder.Layout.{Env, join}
use stadhouder.Text.{starts_with, trim, trim_start, is_whitespace, eq_ignore_ascii_case, to_lower}
use stadhouder.Handler.{
  Taken, Handled, unwound, HttpResponse, envelope, cookie_of, succeeded, json_handler,
  json_handler-envelope,
}
use stadhouder.Tests.Values.{shown, values-ReadsBack, Value, values, values-ReadsObjects}
use stadhouder.Tools.Fileserver.{
  Paths, Script, segments, join_segments, resolve_cgi_script, is_within,
}
use stadhouder.Tools.Fileserver.Resolve.{Runs, resolve_cgi_script-Runs, resolve_cgi_script-none}
use stadhouder.Tools.Fileserver.Environment.{
  with_headers, header_text, or_blank, AppState, Request, cgi_environment, cgi_environment-own,
}
use stadhouder.Tools.Fileserver.Handler.{
  Job, Ran, not_started, output, cgi_handler, cgi_handler-within,
}
use stadhouder.Tools.Fileserver.Output.{
  Http, responded, panicked, malformed_cgi_response, build_response_from_cgi_output,
}
use stadhouder.Tools.Fileserver.Output.Block.{IsPlain, block}
use stadhouder.Tools.Fileserver.Output.Laws.{IsHeader, line, build_response-headers}
use stadhouder.Tools.Fileserver.Output.Refusals.{
  IsJunk, refuses, build_response_panics, build_response-late_crlf,
}

no_env : Env
no_env = record { document_root = none; server_name = none; server_port = none; https = none }

-- One program, /w/cgi-bin/app.exe.
abbrev one_program : Paths
one_program = record { canonicalize = λ p. some p; is_file = text_eq (codes "/w/cgi-bin/app.exe") }

abbrev app_script : Script
app_script = record {
  file = codes "/w/cgi-bin/app.exe";
  name = codes "app";
  path_info = codes "/a";
}

resolve_cgi_script-Runs_example :
    Runs one_program (codes "/w/cgi-bin") (codes "app") (codes "/w/cgi-bin/app.exe")
    × (codes "app" ++ codes "/a" ≡ join_segments (segments (codes "app//a")))
    × ((m : ℕ) (file : Text)
        → m ≤ length (segments (codes "app//a"))
        → length (codes "app") < length (join_segments (take m (segments (codes "app//a"))))
        → ¬ Runs one_program
            (codes "/w/cgi-bin")
            (join_segments (take m (segments (codes "app//a"))))
            file)
unfolding resolve_cgi_script is_within
resolve_cgi_script-Runs_example =
    resolve_cgi_script-Runs one_program (codes "/w/cgi-bin") (codes "app//a") app_script refl

resolve_cgi_script-none_example :
    ¬ Runs one_program
      (codes "/w/cgi-bin")
      (join_segments (take 1 (segments (codes "../b"))))
      (codes "/w/cgi-bin/app.exe")
unfolding resolve_cgi_script segments is_within
resolve_cgi_script-none_example =
    resolve_cgi_script-none one_program (codes "/w/cgi-bin") (codes "../b") 0
      (codes "/w/cgi-bin/app.exe") refl (omega arith)

abbrev site : AppState
site = record { root = codes "/w"; port = 80 }

abbrev get_request : Request
get_request = record {
  method = codes "GET";
  uri = codes "/cgi-bin/app/a";
  query = none;
  remote_ip = codes "127.0.0.1";
  headers = (codes "request-method", some (codes "PUT")) ∷ [];
  body = [];
}

-- The same request with headers that are named after variables.
abbrev forged : List (Text × Option Text)
forged = (codes "remote-addr", some (codes "6.6.6.6")) ∷ (codes "x-forwarded-for", none) ∷ []

cgi_environment-own_example :
    (lookup
        (codes "REQUEST_METHOD")
        (cgi_environment site (with_headers forged get_request) app_script [])
      ≡ lookup (codes "REQUEST_METHOD") (cgi_environment site get_request app_script []))
    × (lookup
          (codes "CONTENT_TYPE")
          (cgi_environment site (with_headers forged get_request) app_script [])
        ≡ some [])
    × (lookup
          (codes "REMOTE_ADDR")
          (cgi_environment site (with_headers forged get_request) app_script [])
        ≡ some get_request.remote_ip)
unfolding starts_with header_text or_blank
cgi_environment-own_example =
    cgi_environment-own site get_request app_script [] forged (codes "REQUEST_METHOD") refl refl

abbrev lenient : Http
lenient = record {
  header_name = λ n. if is_empty n then none else some n;
  header_value = λ v. true;
}

abbrev runs_all : Job → Ran
runs_all job = not_started

abbrev runs_inside : Job → Ran
runs_inside job =
    if is_within (join (codes "/w") (codes "cgi-bin")) job.file then not_started else output []

cgi_handler-within_example :
    cgi_handler lenient one_program runs_all site get_request [] (codes "app/a")
    ≡ cgi_handler lenient one_program runs_inside site get_request [] (codes "app/a")
cgi_handler-within_example =
    cgi_handler-within lenient one_program runs_all runs_inside site get_request [] (codes "app/a")
      (λ job within is_file. rw within refl)

letter-IsPlain : (c : ℕ) → 32 ≤ c → c < 128 → IsPlain c
letter-IsPlain c low high = record {
  ascii = high;
  no_cr = λ e. omega (arith, e, low);
  no_lf = λ e. omega (arith, e, low);
}

-- "a: b"
abbrev a_header : Text × Text
a_header = (97 ∷ [], 98 ∷ [])

a_header-IsHeader : IsHeader a_header
unfolding trim trim_start is_whitespace eq_ignore_ascii_case to_lower
a_header-IsHeader = record {
  plain_name = (letter-IsPlain 97 (omega arith) (omega arith), tt);
  plain_value = (letter-IsPlain 98 (omega arith) (omega arith), tt);
  no_colon = ((λ e. omega (arith, e)), tt);
  name_trimmed = refl;
  value_trimmed = refl;
  line_trimmed = refl;
  no_status = refl;
}

build_response-headers_example :
    build_response_from_cgi_output lenient (block (line a_header ∷ []) (1 ∷ 13 ∷ []))
    ≡ responded (record { status = 200; headers = a_header ∷ []; body = 1 ∷ 13 ∷ [] })
build_response-headers_example =
    build_response-headers lenient a_header [] (1 ∷ 13 ∷ []) (a_header-IsHeader, tt)
      (record { name = refl; value = refl }, tt)

-- A debug print before the header.
ok-IsJunk : IsJunk (codes "ok")
unfolding trim trim_start is_whitespace
ok-IsJunk = record {
  plain = (
    letter-IsPlain 111 (omega arith) (omega arith),
    (letter-IsPlain 107 (omega arith) (omega arith), tt),
  );
  no_colon = ((λ e. omega (arith, e)), ((λ e. omega (arith, e)), tt));
  text = refl;
}

-- ": b"
abbrev no_name : Text × Text
no_name = ([], 98 ∷ [])

no_name-IsHeader : IsHeader no_name
unfolding trim trim_start is_whitespace eq_ignore_ascii_case to_lower
no_name-IsHeader = record {
  plain_name = tt;
  plain_value = (letter-IsPlain 98 (omega arith) (omega arith), tt);
  no_colon = tt;
  name_trimmed = refl;
  value_trimmed = refl;
  line_trimmed = refl;
  no_status = refl;
}

build_response_panics_example :
    build_response_from_cgi_output lenient (block (line no_name ∷ []) []) ≡ panicked
unfolding refuses
build_response_panics_example =
    build_response_panics lenient no_name [] [] (no_name-IsHeader, tt) refl

-- "a: b", an empty line, and a body that is "ok" and an empty line in the CRLF form.
build_response-late_crlf_example :
    build_response_from_cgi_output lenient
      ((codes "a: b" ++ 10 ∷ []) ++ 10 ∷ codes "ok" ++ (13 ∷ 10 ∷ 13 ∷ 10 ∷ []) ++ [])
    ≡ malformed_cgi_response (codes "non-header line in the header block")
build_response-late_crlf_example =
    build_response-late_crlf lenient (codes "a: b" ++ 10 ∷ []) (codes "ok") []
      (omega arith, (omega arith, (omega arith, (omega arith, (omega arith, tt)))))
      (
        (λ e. omega (arith, e)),
        (
          (λ e. omega (arith, e)),
          ((λ e. omega (arith, e)), ((λ e. omega (arith, e)), ((λ e. omega (arith, e)), tt))),
        ),
      )
      ok-IsJunk

all_chars : Text → Bool
all_chars [] = true
all_chars (c ∷ s) = ltb c 0xd800 && all_chars s

all_chars-IsChar : (s : Text) → all_chars s ≡ true → All IsChar s
unfolding all_chars
all_chars-IsChar [] h = tt
all_chars-IsChar (c ∷ s) h = (inl (ground (arith, h)), all_chars-IsChar s (ground (arith, h)))

abbrev broken_handler : Handled Value
broken_handler = unwound none

json_handler-envelope_example :
    (Taken values (λ v. false) (cookie_of values broken_handler)
      × (r : HttpResponse) × (json_handler values (λ v. false) broken_handler ≡ some r)
      × (r.status ≡ 200)
      × (text : Text) × (decode r.body ≡ some text)
      × (values.from_str text ≡ some (envelope values broken_handler))
      × (values.get (envelope values broken_handler) (codes "ok")
          ≡ some (values.bool (succeeded broken_handler))))
    ⊎ ((cookie : Text) × (cookie_of values broken_handler ≡ some cookie)
        × (false ≡ false)
        × (json_handler values (λ v. false) broken_handler ≡ none))
unfolding envelope shown all_chars
json_handler-envelope_example =
    json_handler-envelope values values-ReadsBack values-ReadsObjects (λ v. false) broken_handler
      (all_chars-IsChar (values.to_string (envelope values broken_handler)) refl)
