-- ===== src/Runtime/Polls/Answer.antt =====
-- What a waiting client gets, and what the connection keeps.
use stadhouder.Base.{
  ◌≢◌, ap, ◌≡◌, refl, false, none, some, [], ◌∷◌, ◌++◌, arith, Text, length, ok, ◌<◌, text_eq,
  text_eq_iff, Bool-cases, inl, inr, Assoc, lookup, sym, ◌∙◌,
}
use mathlib.Core.List.{append-nil}
use stadhouder.Base.Int.{ℤ}
use stadhouder.Utf8.{Bytes, encode}
use stadhouder.Json.{Json, ReadsBack}
use stadhouder.Pipes.Frame.{from_le_bytes, read_frame, max_frame_bytes, Sink}
use stadhouder.Pipes.Frame.Laws.{
  oversized, Fits, empty_sink, frame_bytes, write_frame-frame_bytes, read_frame-frame_bytes,
}
use stadhouder.Pipes.Server.{Poller, waiting, absent, unreachable, try_serve_poll}
use stadhouder.Runtime.{LiveConnection}
use stadhouder.Runtime.Polls.{serve_poll, serve_polls}

module _ {V : Type 0} (j : Json V) where
  -- The text that answers the poll of a connection.
  abbrev pub printed : LiveConnection V → Text
  printed c = j.to_string (j.array c.outbox)

  abbrev pub emptied : ℤ → LiveConnection V → LiveConnection V
  emptied now_ms c = record c { outbox = []; last_message_ms = now_ms }

  -- What one connection becomes, and what its poller gets, stands under its own name.
  lookup-serve_polls :
      (now_ms : ℤ) (pollers : Text → Poller) (id : Text) (m : Assoc (LiveConnection V))
      (c : LiveConnection V)
      → lookup id m ≡ some c
      → lookup id (serve_polls j now_ms pollers m).1 ≡ some (serve_poll j now_ms pollers id c).1
  unfolding serve_polls lookup
  lookup-serve_polls now_ms pollers id [] c h = cc
  lookup-serve_polls now_ms pollers id ((i, d) ∷ m) c h = elim (Bool-cases (text_eq i id)) [
    | inl t ↦ ground (arith, (text_eq_iff i id).0 t, t)
    | inr f ↦ ground (arith, f, lookup-serve_polls now_ms pollers id m c)
  ]

  serve_poll-named :
      (now_ms : ℤ) (pollers : Text → Poller) (id i : Text) (d : LiveConnection V) (w : Poller)
      (rest : Assoc Bytes)
      → pollers i ≡ w
      → text_eq i id ≡ false
      → lookup id ((serve_poll j now_ms pollers i d).0 ++ rest) ≡ lookup id rest
  unfolding serve_poll try_serve_poll lookup
  serve_poll-named now_ms pollers id i d (waiting w) rest e f = rw (e, lookup, f) refl
  serve_poll-named now_ms pollers id i d absent rest e f = rw e refl
  serve_poll-named now_ms pollers id i d unreachable rest e f = rw e refl

  serve_poll-quiet :
      (now_ms : ℤ) (pollers : Text → Poller) (i : Text) (d : LiveConnection V) (w : Poller)
      → pollers i ≡ w
      → ((w : Sink) → pollers i ≢ waiting w)
      → serve_poll j now_ms pollers i d ≡ ([], d)
  unfolding serve_poll try_serve_poll
  serve_poll-quiet now_ms pollers i d (waiting w) e h = absurd (h w e)
  serve_poll-quiet now_ms pollers i d absent e h = rw e refl
  serve_poll-quiet now_ms pollers i d unreachable e h = rw e refl

  sent-serve_polls :
      (now_ms : ℤ) (pollers : Text → Poller) (id : Text) (m : Assoc (LiveConnection V))
      (c : LiveConnection V) (b : Bytes)
      → lookup id m ≡ some c
      → (serve_poll j now_ms pollers id c).0 ≡ (id, b) ∷ []
      → lookup id (serve_polls j now_ms pollers m).0 ≡ some b
  unfolding serve_polls lookup
  sent-serve_polls now_ms pollers id [] c b h k = cc
  sent-serve_polls now_ms pollers id ((i, d) ∷ m) c b h k = elim (Bool-cases (text_eq i id)) [
    | inl t ↦ ground (arith, (text_eq_iff i id).0 t, t)
    | inr f ↦
        serve_poll-named now_ms pollers id i d (pollers i) (serve_polls j now_ms pollers m).0 refl f
        ∙ sent-serve_polls now_ms pollers id m c b (ground (arith, f)) k
  ]

  -- Nothing is sent to a connection that is not there.
  pub unsent-serve_polls :
      (now_ms : ℤ) (pollers : Text → Poller) (id : Text) (m : Assoc (LiveConnection V))
      → lookup id m ≡ none
      → lookup id (serve_polls j now_ms pollers m).0 ≡ none
  unfolding serve_polls lookup
  unsent-serve_polls now_ms pollers id [] h = refl
  unsent-serve_polls now_ms pollers id ((i, d) ∷ m) h = elim (Bool-cases (text_eq i id)) [
    | inl t ↦ ground (arith, t)
    | inr f ↦
        serve_poll-named now_ms pollers id i d (pollers i) (serve_polls j now_ms pollers m).0 refl f
        ∙ unsent-serve_polls now_ms pollers id m (ground (arith, f))
  ]

  serve_poll-waiting :
      (now_ms : ℤ) (pollers : Text → Poller) (id : Text) (c : LiveConnection V)
      → Fits (printed c)
      → pollers id ≡ waiting empty_sink
      → serve_poll j now_ms pollers id c ≡ ((id, frame_bytes (printed c)) ∷ [], emptied now_ms c)
  unfolding serve_poll try_serve_poll
  serve_poll-waiting now_ms pollers id c fit w =
      rw (w, write_frame-frame_bytes (printed c) empty_sink fit refl) refl

  serve_poll-oversized :
      (now_ms : ℤ) (pollers : Text → Poller) (id : Text) (c : LiveConnection V)
      → max_frame_bytes < length (encode (printed c))
      → pollers id ≡ waiting empty_sink
      → serve_poll j now_ms pollers id c ≡ ((id, []) ∷ [], emptied now_ms c)
  unfolding serve_poll try_serve_poll from_le_bytes
  serve_poll-oversized now_ms pollers id c big w =
      rw (w, (oversized (printed c) 255 255 255 255 empty_sink [] big (omega arith)).0) refl

  -- A client that waits for its messages gets one frame, which it reads as the array of all the
  -- messages that were queued for it, in order; the service has then none left for it, and has heard
  -- from it now.
  pub poll_answer :
      (now_ms : ℤ) (pollers : Text → Poller) (id : Text) (m : Assoc (LiveConnection V))
      (c : LiveConnection V)
      → ReadsBack j
      → lookup id m ≡ some c
      → Fits (printed c)
      → pollers id ≡ waiting empty_sink
      → let (sent, m') = serve_polls j now_ms pollers m in
        (lookup id m' ≡ some (emptied now_ms c))
        × (b : Bytes) × (lookup id sent ≡ some b)
        × (read_frame b ≡ ok (printed c, []))
        × (j.from_str (printed c) ≡ some (j.array c.outbox))
  poll_answer now_ms pollers id m c r h fit w =
      let answer = serve_poll-waiting now_ms pollers id c fit w in
      (
        rw (lookup-serve_polls now_ms pollers id m c h, answer) refl,
        frame_bytes (printed c),
        sent-serve_polls now_ms pollers id m c (frame_bytes (printed c)) h (ap (λ x. x.0) answer),
        ap read_frame (sym (append-nil (frame_bytes (printed c))))
            ∙ read_frame-frame_bytes (printed c) [] fit,
        r.from_str-to_string (j.array c.outbox),
      )

  -- Where no client waits, the connection keeps its messages, and its time.
  pub poll_absent :
      (now_ms : ℤ) (pollers : Text → Poller) (id : Text) (m : Assoc (LiveConnection V))
      (c : LiveConnection V)
      → lookup id m ≡ some c
      → ((w : Sink) → pollers id ≢ waiting w)
      → lookup id (serve_polls j now_ms pollers m).1 ≡ some c
  poll_absent now_ms pollers id m c h w =
      lookup-serve_polls now_ms pollers id m c h
      ∙ ap (λ x. some x.1) (serve_poll-quiet now_ms pollers id c (pollers id) refl w)

  -- Queued messages whose text is over the frame limit are lost: the waiting client gets no byte, and
  -- the connection has none of them left.
  pub poll_lost :
      (now_ms : ℤ) (pollers : Text → Poller) (id : Text) (m : Assoc (LiveConnection V))
      (c : LiveConnection V)
      → lookup id m ≡ some c
      → max_frame_bytes < length (encode (printed c))
      → pollers id ≡ waiting empty_sink
      → let (sent, m') = serve_polls j now_ms pollers m in
        (lookup id m' ≡ some (emptied now_ms c)) × (lookup id sent ≡ some [])
  poll_lost now_ms pollers id m c h big w =
      let answer = serve_poll-oversized now_ms pollers id c big w in
      (
        rw (lookup-serve_polls now_ms pollers id m c h, answer) refl,
        sent-serve_polls now_ms pollers id m c [] h (ap (λ x. x.0) answer),
      )
