-- ===== src/Handler.antt =====
-- rust/backend/common/src/handler.rs: the answer of a CGI process, in a JSON envelope.
use stadhouder.Base.{
  ℕ, ◌≡◌, ◌⊎◌, inl, inr, Bool-cases, refl, Bool, true, false, Option, none, some, List, [], ◌∷◌,
  ◌++◌, Text, codes, All, if◌then◌else◌, lookup, contains_key,
}
use stadhouder.Utf8.{Bytes, IsChar, encode, decode}
use stadhouder.Utf8.Laws.{decode-encode}
use stadhouder.Json.{Json, ReadsBack, ReadsObjects}

pub record JsonSuccess (V : Type 0) : Type 0 where
  pub data_ : V
  pub set_cookie : Option Text

-- `JsonSuccess::new`
unfoldable pub new : {V : Type 0} → V → JsonSuccess V
new v = record { data_ = v; set_cookie = none }

-- `JsonSuccess::with_cookie`
unfoldable pub with_cookie : {V : Type 0} → V → Text → JsonSuccess V
with_cookie v cookie = record { data_ = v; set_cookie = some cookie }

-- How the handler's function ends: with a result or an error, or with a panic, whose payload may be a text.
pub data Handled (V : Type 0) : Type 0 where
  returned : JsonSuccess V → Handled V
  refused : Text → Handled V
  unwound : Option Text → Handled V

pub record HttpResponse : Type 0 where
  pub status : ℕ
  pub headers : List (Text × Text)
  pub body : Bytes

module _ {V : Type 0} (j : Json V) where
  refusal : Text → V
  refusal e =
      j.object
        ((codes "ok", j.bool false) ∷ (codes "error", j.string e) ∷ (codes "data", j.null) ∷ [])

  panic_text : Option Text → Text
  panic_text none = codes "unknown panic"
  panic_text (some s) = s

  unfoldable pub envelope : Handled V → V
  unfolding refusal panic_text
  envelope (returned success) =
      j.object
        ((codes "ok", j.bool true) ∷ (codes "error", j.null) ∷ (codes "data", success.data_) ∷ [])
  envelope (refused e) = refusal e
  envelope (unwound payload) = refusal (codes "panic: " ++ panic_text payload)

  unfoldable pub cookie_of : Handled V → Option Text
  cookie_of (returned success) = success.set_cookie
  cookie_of (refused e) = none
  cookie_of (unwound payload) = none

  content_type : Text × Text
  content_type = (codes "content-type", codes "application/json")

  -- A cookie that http does not take as a header's value makes the last `unwrap` panic.
  finished : (Text → Bool) → Bytes → Option Text → Option HttpResponse
  unfolding content_type
  finished header_value bytes none =
      some (record { status = 200; headers = content_type ∷ []; body = bytes })
  finished header_value bytes (some cookie) =
      if header_value cookie
      then some (record {
        status = 200;
        headers = content_type ∷ (codes "set-cookie", cookie) ∷ [];
        body = bytes;
      })
      else none

  -- A JSON value always has a text, so `to_vec` does not fail.
  unfoldable pub json_handler : (Text → Bool) → Handled V → Option HttpResponse
  unfolding envelope cookie_of finished
  json_handler header_value h =
      finished header_value (encode (j.to_string (envelope h))) (cookie_of h)

unfoldable pub succeeded : {V : Type 0} → Handled V → Bool
succeeded (returned success) = true
succeeded (refused e) = false
succeeded (unwound payload) = false

module _ {V : Type 0} (j : Json V) where
  -- http takes the cookie, if there is one.
  abbrev pub Taken : (Text → Bool) → Option Text → Type 0
  Taken header_value none = Unit
  Taken header_value (some cookie) = header_value cookie ≡ true

  finished-cases :
      (header_value : Text → Bool) (bytes : Bytes) (o : Option Text)
      → (Taken header_value o
          × (r : HttpResponse) × (finished j header_value bytes o ≡ some r)
          × (r.status ≡ 200)
          × (r.body ≡ bytes))
        ⊎ ((cookie : Text) × (o ≡ some cookie)
            × (header_value cookie ≡ false)
            × (finished j header_value bytes o ≡ none))
  unfolding finished
  finished-cases header_value bytes none = inl (tt, _, refl, refl, refl)
  finished-cases header_value bytes (some cookie) =
      let r : HttpResponse = record {
        status = 200;
        headers = content_type j ∷ (codes "set-cookie", cookie) ∷ [];
        body = bytes;
      } in
      elim (Bool-cases (header_value cookie)) [
        | inl taken ↦ inl (taken, r, rw taken refl, refl, refl)
        | inr bad ↦ inr (cookie, refl, bad, rw bad refl)
      ]

  envelope-ok :
      ReadsObjects j
      → (h : Handled V) → j.get (envelope j h) (codes "ok") ≡ some (j.bool (succeeded h))
  unfolding envelope refusal succeeded lookup contains_key
  envelope-ok laws (returned success) = laws.get-object _ (codes "ok") (refl, (refl, (refl, tt)))
  envelope-ok laws (refused e) = laws.get-object _ (codes "ok") (refl, (refl, (refl, tt)))
  envelope-ok laws (unwound payload) = laws.get-object _ (codes "ok") (refl, (refl, (refl, tt)))

  -- However the handler's function ends, with a result, an error or a panic, if the printed envelope is
  -- a Rust string: either http takes the cookie that is to be set, or none is, and the answer is a 200,
  -- and who decodes its body reads the envelope, which says under "ok" whether there was a result; or http
  -- does not take the cookie, and there is no answer, but a panic.
  pub json_handler-envelope :
      ReadsBack j
      → ReadsObjects j
      → (header_value : Text → Bool) (h : Handled V) → All IsChar (j.to_string (envelope j h))
      → (Taken header_value (cookie_of j h)
          × (r : HttpResponse) × (json_handler j header_value h ≡ some r)
          × (r.status ≡ 200)
          × (text : Text) × (decode r.body ≡ some text)
          × (j.from_str text ≡ some (envelope j h))
          × (j.get (envelope j h) (codes "ok") ≡ some (j.bool (succeeded h))))
        ⊎ ((cookie : Text) × (cookie_of j h ≡ some cookie)
            × (header_value cookie ≡ false)
            × (json_handler j header_value h ≡ none))
  unfolding json_handler
  json_handler-envelope back objects header_value h chars =
      let text = j.to_string (envelope j h) in
      elim (finished-cases header_value (encode text) (cookie_of j h)) [
        | inr (cookie, set_, bad, none_) ↦ inr (cookie, set_, bad, none_)
        | inl (taken, r, e, status, body) ↦ inl (
          taken,
          r,
          e,
          status,
          text,
          rw body (decode-encode text chars),
          back.from_str-to_string (envelope j h),
          envelope-ok objects h,
        )
      ]
