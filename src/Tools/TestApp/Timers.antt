-- ===== src/Tools/TestApp/Timers.antt =====
-- The timers of the test application, from the command that sets one to the message that it sends.
use stadhouder.Base.{ap, ◌≡◌, refl, some, List, [], ◌∷◌, Text, codes, Assoc, lookup, contains_key}
use stadhouder.Base.Int.{ℤ}
use stadhouder.Json.{Json, ReadsObjects}
use stadhouder.Service.{InboundMessage, ExpiredTimer, TimerRequest, EngineOutput, Batch}
use stadhouder.Tools.TestApp.{
  TestEngine, set_timer, cancel_timer, index, timer_for, command_in, empty_output, reply, perform,
  obey, fire, fire_all, greet_all, report_all, process,
}

-- A call with messages only, and one with expired timers only.
abbrev pub said : {V F : Type 0} → ℤ → F → List (InboundMessage V) → Batch V F
said now pct ms = record {
  timestamp_ms = now;
  memory_pct = pct;
  new_connections = [];
  closed_connections = [];
  messages = ms;
  expired_timers = [];
}

abbrev pub elapsed : {V F : Type 0} → ℤ → F → List (ExpiredTimer V) → Batch V F
elapsed now pct xs = record {
  timestamp_ms = now;
  memory_pct = pct;
  new_connections = [];
  closed_connections = [];
  messages = [];
  expired_timers = xs;
}

-- What the service reports of a timer that was asked for.
abbrev pub expired_of : {V : Type 0} → TimerRequest V → ExpiredTimer V
expired_of r = record { timer_id = r.timer_id; expiry_ms = r.expiry_ms; payload = r.payload }

module _ {V : Type 0} (j : Json V) where
  payload_of : ℤ → Text → V → Assoc V
  payload_of now id m =
      (codes "tag", index j m (codes "tag")) ∷ (codes "connection_id", j.string id) ∷ []

  payload-keys :
      ReadsObjects j
      → (now : ℤ) (id : Text) (m : V)
      → let v = (timer_for j now id m).payload in
        (j.as_str (index j v (codes "connection_id")) ≡ some id)
        × (index j v (codes "tag") ≡ index j m (codes "tag"))
  unfolding timer_for index payload_of lookup contains_key
  payload-keys laws now id m =
      let keys = laws.get-object (payload_of now id m) in
      (
        rw (keys (codes "connection_id") (refl, (refl, tt))) (laws.as_str-string id),
        rw (keys (codes "tag") (refl, (refl, tt))) refl,
      )

  fire-reply :
      (x : ExpiredTimer V) (id : Text) (tag : V) (t : TestEngine × EngineOutput V)
      → j.as_str (index j x.payload (codes "connection_id")) ≡ some id
      → index j x.payload (codes "tag") ≡ tag
      → fire j x t
        ≡ reply j id
            (j.object ((codes "timer_fired", tag) ∷ (codes "expiry_ms", j.int x.expiry_ms) ∷ []))
            t
  unfolding fire
  fire-reply x id tag t to e = rw (to, fire, e) refl

  -- A timer that a connection sets is asked for with its delay from the time of the call; a cancel of
  -- the same tag by the same connection names that very timer; and when it is reported as expired, the
  -- same connection, and no other, is told its tag and its time.
  pub set_timer-fires :
      ReadsObjects j
      → {F : Type 0} (now later : ℤ) (pct : F) (id : Text) (m m' : V) (e e' : TestEngine)
      → command_in j m ≡ set_timer
      → command_in j m' ≡ cancel_timer
      → index j m (codes "tag") ≡ index j m' (codes "tag")
      → let r = timer_for j now id m in
        ((process j (said now pct (record { connection_id = id; message = m } ∷ [])) e).0.timers
          ≡ r ∷ [])
        × ((process j
              (said now pct (record { connection_id = id; message = m' } ∷ []))
              e).0.cancel_timers
            ≡ r.timer_id ∷ [])
        × ((process j (elapsed later pct (expired_of r ∷ [])) e').0.messages
            ≡ record {
              connection_id = id;
              message = j.object (
                  (codes "timer_fired", index j m (codes "tag"))
                  ∷ (codes "expiry_ms", j.int r.expiry_ms)
                  ∷ []);
            }
              ∷ [])
  unfolding process obey perform fire_all greet_all report_all reply empty_output timer_for
  set_timer-fires laws now later pct id m m' e e' set cancel same =
      let (to, tag) = payload-keys laws now id m in
      (
        rw (set, perform) refl,
        rw (cancel, perform, same) refl,
        ap (λ (t : TestEngine × EngineOutput V). t.1.messages)
            (fire-reply (expired_of (timer_for j now id m)) id (index j m (codes "tag"))
              (e', empty_output j) to tag),
      )
