-- ===== src/Tools/TestApp/Roster.antt =====
-- The roster that the test application keeps, and the service's registry of connections.
use mathlib.Core.List.{append-nil, append_assoc}
use stadhouder.Base.{
  ◌||◌, holds-append, sym, ap, ◌≡◌, refl, ◌∙◌, not, ◌&&◌, List, [], ◌∷◌, ◌++◌, arith, Text, text_eq,
  text_eq_iff, holds,
}
use stadhouder.Json.{Json}
use stadhouder.Service.{NewConnection, ClosedConnection, InboundMessage, ExpiredTimer, Batch}
use stadhouder.Runtime.Registry.Steps.{new_ids, closed_ids}
use stadhouder.Tools.TestApp.{
  ℤ, TestEngine, Command, add, get, broadcast, set_timer, cancel_timer, close_me, shutdown, unknown,
  retain, note, empty_output, closed_note, Turn, reply, tell, greet, greet_all, report, report_all,
  perform, command_in, obey, fire, fire_all, process,
}

holds-retain :
    (gone : Text) (ids : List Text) (id : Text)
    → holds (retain gone ids) id ≡ (holds ids id && not (text_eq gone id))
unfolding retain
holds-retain gone [] id = refl
holds-retain gone (k ∷ ids) id =
    ground
      (arith, holds-retain gone ids id, text_eq_iff k id, text_eq_iff k gone, text_eq_iff gone id)

-- A close that is asked for.
abbrev pub asks : Text → Command → List Text
asks id close_me = id ∷ []
asks id _ = []

module _ {V : Type 0} (j : Json V) where
  -- The connections of the messages that ask for their close.
  abbrev pub asked : List (InboundMessage V) → List Text
  asked [] = []
  asked (m ∷ ms) = asks m.connection_id (command_in j m.message) ++ asked ms

  -- What the roster and the ordered closes are in a turn.
  abbrev State : Type 0
  State = List Text × List Text

  state_of : Turn j → State
  state_of (e, o) = (e.roster, o.close_connections)

  tell-state : (ids : List Text) (v : V) (t : Turn j) → state_of (tell j ids v t) ≡ state_of t
  unfolding tell state_of
  tell-state [] v t = refl
  tell-state (id ∷ ids) v t = tell-state ids v (reply j id v t)

  fire-state : (x : ExpiredTimer V) (t : Turn j) → state_of (fire j x t) ≡ state_of t
  unfolding fire state_of
  fire-state x t = ground arith

  fire_all-state :
      (xs : List (ExpiredTimer V)) (t : Turn j) → state_of (fire_all j xs t) ≡ state_of t
  unfolding fire_all
  fire_all-state [] t = refl
  fire_all-state (x ∷ xs) t = fire_all-state xs (fire j x t) ∙ fire-state x t

  greet_all-state :
      (cs : List NewConnection) (t : Turn j)
      → state_of (greet_all j cs t) ≡ (t.0.roster ++ new_ids cs, t.1.close_connections)
  unfolding greet_all state_of greet
  greet_all-state [] (e, o) = rw (append-nil e.roster) refl
  greet_all-state (c ∷ cs) (e, o) =
      greet_all-state cs (greet j c (e, o))
      ∙ ap (λ ids. (ids, o.close_connections))
          (append_assoc e.roster (c.connection_id ∷ []) (new_ids cs))

  report-state :
      (c : ClosedConnection) (t : Turn j)
      → state_of (report j c t) ≡ (retain c.connection_id t.0.roster, t.1.close_connections)
  unfolding report state_of
  report-state c (e, o) =
      let roster = retain c.connection_id e.roster in
      tell-state roster (closed_note j c) (record e { roster = roster }, o)

  report_all-closes :
      (cs : List ClosedConnection) (t : Turn j)
      → (report_all j cs t).1.close_connections ≡ t.1.close_connections
  unfolding report_all state_of
  report_all-closes [] t = refl
  report_all-closes (c ∷ cs) t =
      report_all-closes cs (report j c t) ∙ ap (λ (x : State). x.1) (report-state c t)

  report_all-roster :
      (cs : List ClosedConnection) (t : Turn j) (id : Text)
      → holds (report_all j cs t).0.roster id
        ≡ (holds t.0.roster id && not (holds (closed_ids cs) id))
  unfolding report_all state_of
  report_all-roster [] t id = ground arith
  report_all-roster (c ∷ cs) t id =
      report_all-roster cs (report j c t) id
      ∙ ap (λ (x : State). holds x.0 id && not (holds (closed_ids cs) id)) (report-state c t)
      ∙ ground (arith, holds-retain c.connection_id t.0.roster id)

  quiet :
      (t : Turn j) (id : Text)
      → (t.1.close_connections ≡ t.1.close_connections ++ [])
        × (holds t.0.roster id ≡ (holds t.0.roster id && not (holds [] id)))
  quiet t id = (sym (append-nil t.1.close_connections), ground arith)

  perform-state :
      (now : ℤ) (k : Text) (m : V) (c : Command) (t : Turn j) (id : Text)
      → ((perform j now k m c t).1.close_connections ≡ t.1.close_connections ++ asks k c)
        × (holds (perform j now k m c t).0.roster id
            ≡ (holds t.0.roster id && not (holds (asks k c) id)))
  unfolding perform state_of note
  perform-state now k m add (e, o) id = quiet (e, o) id
  perform-state now k m get (e, o) id = quiet (e, o) id
  perform-state now k m broadcast (e, o) id =
      let told = tell-state e.roster (note j m) (e, o) in
      let (a, b) = quiet (e, o) id in
      (ap (λ (x : State). x.1) told ∙ a, ap (λ (x : State). holds x.0 id) told ∙ b)
  perform-state now k m set_timer (e, o) id = quiet (e, o) id
  perform-state now k m cancel_timer (e, o) id = quiet (e, o) id
  perform-state now k m close_me (e, o) id = (refl, ground (arith, holds-retain k e.roster id))
  perform-state now k m shutdown (e, o) id = quiet (e, o) id
  perform-state now k m (unknown other) (e, o) id = quiet (e, o) id

  obey-state :
      (now : ℤ) (ms : List (InboundMessage V)) (t : Turn j) (id : Text)
      → ((obey j now ms t).1.close_connections ≡ t.1.close_connections ++ asked ms)
        × (holds (obey j now ms t).0.roster id ≡ (holds t.0.roster id && not (holds (asked ms) id)))
  unfolding obey
  obey-state now [] t id = quiet t id
  obey-state now (m ∷ ms) t id =
      let t' = perform j now m.connection_id m.message (command_in j m.message) t in
      let here = asks m.connection_id (command_in j m.message) in
      let (a, b) = perform-state now m.connection_id m.message (command_in j m.message) t id in
      let (c, d) = obey-state now ms t' id in
      (
        c ∙ ap (λ ids. ids ++ asked ms) a ∙ append_assoc t.1.close_connections here (asked ms),
        d
            ∙ ap (λ b. b && not (holds (asked ms) id)) b
            ∙ ground (arith, holds-append here (asked ms) id),
      )

  -- What one call makes of the roster, and the closes that it orders: those that are asked for.
  pub process-roster :
      {F : Type 0} (b : Batch V F) (e : TestEngine) (id : Text)
      → ((process j b e).0.close_connections ≡ asked b.messages)
        × (holds (process j b e).1.roster id ≡ (
            ((holds e.roster id || holds (new_ids b.new_connections) id)
              && not (holds (closed_ids b.closed_connections) id))
            && not (holds (asked b.messages) id)))
  unfolding process empty_output state_of
  process-roster b e id =
      let greeted = greet_all j b.new_connections (e, empty_output j) in
      let reported = report_all j b.closed_connections greeted in
      let obeyed = obey j b.timestamp_ms b.messages reported in
      let fired = fire_all-state b.expired_timers obeyed in
      let (c, r) = obey-state b.timestamp_ms b.messages reported id in
      let known = greet_all-state b.new_connections (e, empty_output j) in
      (
        ap (λ (x : State). x.1) fired
            ∙ c
            ∙ ap (λ ids. ids ++ asked b.messages)
                (report_all-closes b.closed_connections greeted ∙ ap (λ (x : State). x.1) known),
        ap (λ (x : State). holds x.0 id) fired
            ∙ r
            ∙ ap (λ b'. b' && not (holds (asked b.messages) id))
                (report_all-roster b.closed_connections greeted id
                  ∙ ap (λ b'. b' && not (holds (closed_ids b.closed_connections) id))
                      (ap (λ (x : State). holds x.0 id) known
                        ∙ holds-append e.roster (new_ids b.new_connections) id)),
      )
