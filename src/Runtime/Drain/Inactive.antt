-- ===== src/Runtime/Drain/Inactive.antt =====
-- Who is dropped for silence: exactly the connections whose last message is two minutes old.
use stadhouder.Base.{
  IsMap, ◌≡◌, refl, false, Bool, Option, none, some, List, [], ◌∷◌, map, any, arith, Text, text_eq,
  text_eq_iff, All, if◌then◌else◌, Bool-cases, inl, inr, Assoc, lookup, contains_key, lookup-remove,
  ap, ◌∙◌,
}
use stadhouder.Base.Int.{ℤ, pos, IsTime, leb_ℤ, ◌+ℤ◌, -ℤ_parts, +ℤ_parts, sub_i64-exact}
use stadhouder.Runtime.{LiveConnection, Loop, is_due, client_inactivity_ms}
use stadhouder.Service.{ClosedConnection, server_idle_timeout}
use stadhouder.Runtime.Registry.Keep.{closed_for, drop_inactive-reasons}
use stadhouder.Runtime.Drain.{silent, disconnect, drop_inactive}

module _ {V : Type 0} where
  abbrev pub HasTime : Text × LiveConnection V → Type 0
  HasTime e = IsTime e.1.last_message_ms

  -- The last message is two minutes old; without the arithmetic of 64 bits.
  abbrev pub overdue : ℤ → Option (LiveConnection V) → Bool
  overdue now_ms none = false
  overdue now_ms (some c) = leb_ℤ (c.last_message_ms +ℤ pos client_inactivity_ms) now_ms

  is_due-overdue :
      (now_ms : ℤ) (c : LiveConnection V)
      → IsTime now_ms
      → IsTime c.last_message_ms
      → is_due now_ms c.last_message_ms client_inactivity_ms ≡ overdue now_ms (some c)
  unfolding is_due
  is_due-overdue now_ms c h k = rw (sub_i64-exact now_ms c.last_message_ms h k) (
      ground (
        arith,
        -ℤ_parts now_ms c.last_message_ms,
        +ℤ_parts c.last_message_ms (pos client_inactivity_ms),
      ))

  contains_key-silent :
      (id : Text) (now_ms : ℤ) (m : Assoc (LiveConnection V))
      → contains_key id m ≡ false
      → any (text_eq id) (silent now_ms m) ≡ false
  unfolding silent contains_key
  contains_key-silent id now_ms [] h = refl
  contains_key-silent id now_ms ((i, c) ∷ m) h =
      ground (arith, text_eq_iff i id, text_eq_iff id i, contains_key-silent id now_ms m)

  any-silent :
      (id : Text) (now_ms : ℤ) (m : Assoc (LiveConnection V))
      → IsTime now_ms
      → All HasTime m
      → IsMap m
      → any (text_eq id) (silent now_ms m) ≡ overdue now_ms (lookup id m)
  unfolding silent lookup
  any-silent id now_ms [] h k u = refl
  any-silent id now_ms ((i, c) ∷ m) h k u = elim (Bool-cases (overdue now_ms (some c))) [
    | inl t ↦
        rw (silent, is_due-overdue now_ms c h k.0, t)
          (ground (arith, text_eq_iff i id, text_eq_iff id i, any-silent id now_ms m h k.1 u.1, t))
    | inr f ↦
        rw (silent, is_due-overdue now_ms c h k.0, f)
          (ground (
            arith,
            text_eq_iff i id,
            text_eq_iff id i,
            any-silent id now_ms m h k.1 u.1,
            contains_key-silent id now_ms m,
            u.0,
            f,
          ))
  ]

connection_ids :
    (ids : List Text)
    → map ClosedConnection.connection_id (map (closed_for server_idle_timeout) ids) ≡ ids
connection_ids [] = refl
connection_ids (i ∷ ids) = ap (◌∷◌ i) (connection_ids ids)

closed_for-reason :
    (ids : List Text)
    → All (λ c. c.reason ≡ server_idle_timeout) (map (closed_for server_idle_timeout) ids)
closed_for-reason [] = tt
closed_for-reason (i ∷ ids) = (refl, closed_for-reason ids)

module _ {V F S : Type 0} where
  pub lookup-disconnect :
      (id i : Text) (l : Loop V F S)
      → lookup id (disconnect i l).connections
        ≡ (if text_eq i id then none else lookup id l.connections)
  unfolding disconnect
  lookup-disconnect id i l = ground (arith, lookup-remove i id l.connections, text_eq_iff i id)

  lookup-drop_inactive :
      (id : Text) (ids : List Text) (l : Loop V F S)
      → lookup id (drop_inactive ids l).1.connections
        ≡ (if any (text_eq id) ids then none else lookup id l.connections)
  unfolding drop_inactive
  lookup-drop_inactive id [] l = refl
  lookup-drop_inactive id (i ∷ ids) l =
      rw (lookup-drop_inactive id ids (disconnect i l), lookup-disconnect id i l)
        (ground (arith, text_eq_iff i id, text_eq_iff id i))

  -- A round drops exactly the connections whose last message is two minutes old or older, leaves every
  -- other one as it is, and reports each of the dropped ones, and no one else, with the reason of a
  -- timeout.
  pub silence :
      (now_ms : ℤ) (id : Text) (l : Loop V F S)
      → IsTime now_ms
      → All HasTime l.connections
      → IsMap l.connections
      → let (closed, l') = drop_inactive (silent now_ms l.connections) l in
        let old = overdue now_ms (lookup id l.connections) in
        (lookup id l'.connections ≡ (if old then none else lookup id l.connections))
        × (any (text_eq id) (map ClosedConnection.connection_id closed) ≡ old)
        × All (λ c. c.reason ≡ server_idle_timeout) closed
  silence now_ms id l h k u =
      rw
        (
          drop_inactive-reasons (silent now_ms l.connections) l,
          connection_ids (silent now_ms l.connections),
          any-silent id now_ms l.connections h k u,
        )
        (
          lookup-drop_inactive id (silent now_ms l.connections) l
              ∙ ap (λ (b : Bool). if b then none else lookup id l.connections)
                  (any-silent id now_ms l.connections h k u),
          refl,
          closed_for-reason (silent now_ms l.connections),
        )
