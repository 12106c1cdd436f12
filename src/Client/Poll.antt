-- ===== src/Client/Poll.antt =====
-- What a poll brings: the first messages that come, or none at its deadline, with a heartbeat.
use stadhouder.Base.{
  ℕ, ◌≡◌, ◌<◌, ◌≤◌, refl, ◌∙◌, Option, some, List, [], ◌∷◌, ◌++◌, arith, All, leb, if◌then◌else◌,
  Result, ok,
}
use stadhouder.Json.{Json, ReadsBack}
use stadhouder.Float.{Float}
use stadhouder.Pipes.Client.{client_receive}
use stadhouder.Client.{Episode, receive_until, parsed, has_content}

-- What the program relies on: an array has its items.
pub record ReadsArrays {V : Type 0} (j : Json V) : Type 0 where
  pub as_array-array : (vs : List V) → Json.as_array j (j.array vs) ≡ some vs

module _ {V F : Type 0} (j : Json V) (f : Float F) where
  -- The episode receives the values that the service printed.
  abbrev pub Brings : F → List V → Episode → Type 0
  Brings factor vs e =
      client_receive f factor e.start e.waits ≡ some (ok (j.to_string (j.array vs)))

  -- It receives none, before the deadline.
  abbrev pub IsIdle : F → ℕ → Episode → Type 0
  IsIdle factor deadline e = Brings factor [] e × (e.over < deadline)

  parsed-full :
      (deadline over : ℕ) (v : V) (vs : List V) (later : Option (Result V))
      → ReadsBack j
      → ReadsArrays j
      → parsed j f deadline over (j.from_str (j.to_string (j.array (v ∷ vs)))) later
        ≡ some (ok (j.array (v ∷ vs)))
  unfolding parsed has_content
  parsed-full deadline over v vs later r a =
      rw (r.from_str-to_string (j.array (v ∷ vs)), a.as_array-array (v ∷ vs)) refl

  parsed-empty :
      (deadline over : ℕ) (later : Option (Result V))
      → ReadsBack j
      → ReadsArrays j
      → parsed j f deadline over (j.from_str (j.to_string (j.array []))) later
        ≡ (if leb deadline over then some (ok (j.array [])) else later)
  unfolding parsed has_content
  parsed-empty deadline over later r a =
      rw (r.from_str-to_string (j.array []), a.as_array-array []) refl

  receive_until-step :
      (factor : F) (deadline : ℕ) (vs : List V) (e : Episode) (es : List Episode)
      → Brings factor vs e
      → receive_until j f factor deadline (e ∷ es)
        ≡ parsed j f deadline e.over
            (j.from_str (j.to_string (j.array vs)))
            (receive_until j f factor deadline es)
  unfolding receive_until
  receive_until-step factor deadline vs e es b = rw (b, receive_until) refl

  early_if :
      {A : Type 0} (deadline over : ℕ) (x y : A)
      → over < deadline
      → (if leb deadline over then x else y) ≡ y
  early_if deadline over x y h = ground arith

  late_if :
      {A : Type 0} (deadline over : ℕ) (x y : A)
      → deadline ≤ over
      → (if leb deadline over then x else y) ≡ x
  late_if deadline over x y h = ground arith

  receive_until-idle :
      (factor : F) (deadline : ℕ) (before es : List Episode)
      → ReadsBack j
      → ReadsArrays j
      → All (IsIdle factor deadline) before
      → receive_until j f factor deadline (before ++ es) ≡ receive_until j f factor deadline es
  receive_until-idle factor deadline [] es r a h = refl
  receive_until-idle factor deadline (e ∷ before) es r a h =
      receive_until-step factor deadline [] e (before ++ es) h.0.0
      ∙ parsed-empty deadline e.over (receive_until j f factor deadline (before ++ es)) r a
      ∙ early_if deadline e.over (some (ok (j.array [])))
          (receive_until j f factor deadline (before ++ es)) h.0.1
      ∙ receive_until-idle factor deadline before es r a h.1

  -- A poll returns the first messages that the service sends it, as they were queued, however often it
  -- was answered with none before, if each of these answers was over before the deadline.
  pub poll_first_messages :
      (factor : F) (deadline : ℕ) (before : List Episode) (e : Episode) (after : List Episode)
      (v : V) (vs : List V)
      → ReadsBack j
      → ReadsArrays j
      → All (IsIdle factor deadline) before
      → Brings factor (v ∷ vs) e
      → receive_until j f factor deadline (before ++ e ∷ after) ≡ some (ok (j.array (v ∷ vs)))
  poll_first_messages factor deadline before e after v vs r a h b =
      receive_until-idle factor deadline before (e ∷ after) r a h
      ∙ receive_until-step factor deadline (v ∷ vs) e after b
      ∙ parsed-full deadline e.over v vs (receive_until j f factor deadline after) r a

  -- A poll that only ever gets none ends with none, with the first episode that is over at its deadline.
  pub poll_ends :
      (factor : F) (deadline : ℕ) (before : List Episode) (e : Episode) (after : List Episode)
      → ReadsBack j
      → ReadsArrays j
      → All (IsIdle factor deadline) before
      → Brings factor [] e
      → deadline ≤ e.over
      → receive_until j f factor deadline (before ++ e ∷ after) ≡ some (ok (j.array []))
  poll_ends factor deadline before e after r a h b over =
      receive_until-idle factor deadline before (e ∷ after) r a h
      ∙ receive_until-step factor deadline [] e after b
      ∙ parsed-empty deadline e.over (receive_until j f factor deadline after) r a
      ∙ late_if deadline e.over (some (ok (j.array []))) (receive_until j f factor deadline after)
          over
