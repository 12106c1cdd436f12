-- ===== src/Runtime/Drain/Messages.antt =====
-- The messages that the engine gets are those that were sent, without the heartbeats.
use stadhouder.Base.{
  ok, err, text_eq_iff, Result, some, Bool, ap, inr, inl, Option-cases, Bool-cases, ◌≡◌, refl, true,
  false, not, List, [], ◌∷◌, map, arith, Text, filter, All, Assoc, contains_key, if◌then◌else◌, ◌∙◌,
  All-append,
}
use stadhouder.Utf8.{Bytes}
use stadhouder.Json.{Json, ReadsBack}
use stadhouder.Heartbeat.{is_heartbeat}
use stadhouder.Pipes.Frame.Laws.{Fits}
use stadhouder.Pipes.Stream.{stream, extract_frames-stream_only}
use stadhouder.Pipes.Server.{
  Read, InboundServerPipe, drain_frames, arrivals, joined, drain_frames-arrivals,
}
use stadhouder.Service.{InboundMessage}
use stadhouder.Runtime.{ℤ, LiveConnection}
use stadhouder.Runtime.Drain.{message_of, messages_of, heard, received, drain, drain_all}

module _ {V : Type 0} (j : Json V) where
  abbrev pub from_client : Text → V → InboundMessage V
  from_client id v = record { connection_id = id; message = v }

  abbrev pub Admitted : Assoc (LiveConnection V) → InboundMessage V → Type 0
  Admitted m x = (contains_key x.connection_id m ≡ true) × (is_heartbeat j x.message ≡ false)

  messages_of-Admitted :
      (m : Assoc (LiveConnection V)) (id : Text) (frames : List Text)
      → contains_key id m ≡ true
      → All (Admitted m) (messages_of j id frames)
  unfolding messages_of
  messages_of-Admitted m id [] h = tt
  messages_of-Admitted m id (frame ∷ frames) h = elim (Option-cases (j.from_str frame)) [
    | inl e ↦ rw (e, messages_of, message_of) (messages_of-Admitted m id frames h)
    | inr (v, e) ↦ elim (Bool-cases (is_heartbeat j v)) [
      | inl t ↦ rw (e, messages_of, message_of, t) (messages_of-Admitted m id frames h)
      | inr f ↦ rw (e, messages_of, message_of, f) ((h, f), messages_of-Admitted m id frames h)
    ]
  ]

  messages_of-read :
      (id frame : Text) (frames : List Text) (v : V)
      → j.from_str frame ≡ some v
      → messages_of j id (frame ∷ frames) ≡ (
          if is_heartbeat j v
          then messages_of j id frames
          else from_client id v ∷ messages_of j id frames)
  unfolding messages_of
  messages_of-read id frame frames v e = elim (Bool-cases (is_heartbeat j v)) [
    | inl t ↦ rw (e, messages_of, message_of, t) refl
    | inr f ↦ rw (e, messages_of, message_of, f) refl
  ]

  -- The messages of values that were printed and sent.
  messages_of-to_string :
      (id : Text) (vs : List V)
      → ReadsBack j
      → messages_of j id (map j.to_string vs)
        ≡ map (from_client id) (filter (λ v. not (is_heartbeat j v)) vs)
  unfolding messages_of
  messages_of-to_string id [] r = refl
  messages_of-to_string id (v ∷ vs) r =
      messages_of-read id (j.to_string v) (map j.to_string vs) v (r.from_str-to_string v)
      ∙ go (is_heartbeat j v) (messages_of-to_string id vs r)
    where
      kept : List V
      kept = filter (λ x. not (is_heartbeat j x)) vs

      go :
          (b : Bool)
          → messages_of j id (map j.to_string vs) ≡ map (from_client id) kept
          → (if b
              then messages_of j id (map j.to_string vs)
              else from_client id v ∷ messages_of j id (map j.to_string vs))
            ≡ map (from_client id) (if not b then v ∷ kept else kept)
      go true h = h
      go false h = ap (◌∷◌ (from_client id v)) h

  -- What a client printed, framed and wrote between two rounds, in whatever pieces it arrives, is what
  -- the service takes for its messages, in order and without the heartbeats; the pipe's buffer is
  -- empty again, and the connection was heard now, if anything was sent.
  pub delivery :
      (now_ms : ℤ) (reads : Text → List Read) (id : Text) (c : LiveConnection V) (vs : List V)
      (ss : List Bytes)
      → ReadsBack j
      → All Fits (map j.to_string vs)
      → c.inbound.buffer ≡ []
      → reads id ≡ arrivals ss
      → joined ss ≡ stream (map j.to_string vs)
      → drain j now_ms reads id c ≡ (
        map (from_client id) (filter (λ v. not (is_heartbeat j v)) vs),
        heard j now_ms (map j.to_string vs) c,
      )
  unfolding drain
  delivery now_ms reads id c vs ss r fit b e k =
      rw
        (
          e,
          drain_frames-arrivals ss c.inbound,
          b,
          k,
          extract_frames-stream_only (map j.to_string vs) fit,
          received,
          messages_of-to_string id vs r,
        )
        refl

  drain-Admitted :
      (now_ms : ℤ) (reads : Text → List Read) (m : Assoc (LiveConnection V)) (id : Text)
      (c : LiveConnection V)
      → contains_key id m ≡ true
      → All (Admitted m) (drain j now_ms reads id c).0
  unfolding drain received
  drain-Admitted now_ms reads m id c h = go (drain_frames (reads id) c.inbound)
    where
      go :
          (x : Result (List Text) × InboundServerPipe)
          → All (Admitted m) (received j now_ms id c x).0
      go (err e, p) = tt
      go (ok frames, p) = messages_of-Admitted m id frames h

  contains_key-head :
      (i : Text) (d : LiveConnection V) (k : Assoc (LiveConnection V))
      → contains_key i ((i, d) ∷ k) ≡ true
  unfolding contains_key
  contains_key-head i d k = ground (arith, text_eq_iff i i)

  contains_key-tail :
      (i u : Text) (d : LiveConnection V) (k : Assoc (LiveConnection V))
      → contains_key i k ≡ true
      → contains_key i ((u, d) ∷ k) ≡ true
  unfolding contains_key
  contains_key-tail i u d k h = ground (arith, text_eq_iff u i)

  drain_all-Admitted_from :
      (now_ms : ℤ) (reads : Text → List Read) (m n : Assoc (LiveConnection V))
      → ((id : Text) → contains_key id n ≡ true → contains_key id m ≡ true)
      → All (Admitted m) (drain_all j now_ms reads n).0
  unfolding drain_all
  drain_all-Admitted_from now_ms reads m [] f = tt
  drain_all-Admitted_from now_ms reads m ((id, c) ∷ n) f =
      All-append (Admitted m) (drain j now_ms reads id c).0 (drain_all j now_ms reads n).0
        (drain-Admitted now_ms reads m id c (f id (contains_key-head id c n)))
        (drain_all-Admitted_from now_ms reads m n (λ i h. f i (contains_key-tail i id c n h)))

  -- Whatever the pipes hold, the engine's batch names only live connections, and has no heartbeat.
  pub drain_all-Admitted :
      (now_ms : ℤ) (reads : Text → List Read) (m : Assoc (LiveConnection V))
      → All (Admitted m) (drain_all j now_ms reads m).0
  drain_all-Admitted now_ms reads m = drain_all-Admitted_from now_ms reads m m (λ i h. h)
