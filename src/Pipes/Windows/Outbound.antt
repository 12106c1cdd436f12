-- ===== src/Pipes/Windows/Outbound.antt =====
-- The service's end of a server-to-client pipe on Windows.
use Prim.Native.String.{String}
use stadhouder.Base.{
  ◌≢◌, ◌∙◌, refl, ℕ, zero, suc, ◌+◌, ◌*◌, ◌≤◌, ◌≡◌, ◌↔◌, Bool, true, false, not, ◌&&◌,
  if◌then◌else◌, Option, none, some, List, [], ◌∷◌, arith, Text, Result, ok, err, ◌>>=◌, is_some,
}
use stadhouder.Utf8.{Bytes}
use stadhouder.Pipes.Frame.{Sink, write_frame}
use stadhouder.Pipes.Windows.{
  Instance, Connect, Peek, waiting_bytes, peek_failed, check_connected, available, disconnect,
  set_blocking,
}
use stadhouder.Pipes.Windows

pub record OutboundServerPipe : Type 0 where
  pub instance_ : Instance

unfoldable pub create : Bool → Result OutboundServerPipe
create made = Windows.create made >>= λ i. ok (record { instance_ = i })

-- The wait for the poller to close, of at most so many sleeps of 5 ms: the milliseconds slept. The
-- list holds what the peeks answer.
unfoldable pub linger : ℕ → List Peek → ℕ
unfolding available
linger zero peeks = 0
linger (suc tries) [] = 0
linger (suc tries) (p ∷ ps) = elim (available p) [
  | ok none ↦ 0
  | err e ↦ 0
  | ok (some n) ↦ 5 + linger tries ps
]

-- What the system does in one call, where it serves a poll: whether it grants the two switches of the
-- mode, and the milliseconds for which the write of the frame and FlushFileBuffers block, if they return.
pub record Calls : Type 0 where
  pub to_wait : Bool
  pub to_nowait : Bool
  pub writing : ℕ
  pub flushing : ℕ

-- What one call leaves: its answer, the bytes that the poller can read if `provide` was called, the
-- milliseconds that it took, in the write, the flush and the sleeps, and the instance.
pub record Served : Type 0 where
  pub answer : Result Bool
  pub provided : Option Bytes
  pub took : ℕ
  pub instance_ : Instance

abbrev unserved : Result Bool → Instance → Served
unserved r i = record { answer = r; provided = none; took = 0; instance_ = i }

received : Sink → Result Sink → Bytes
received w (ok w') = w'.written
received w (err e) = w.written

-- The flush and the wait for the poller, after a frame that could be written.
lingered : Calls → Result Sink → List Peek → ℕ
lingered calls (ok w) peeks = calls.flushing + linger 400 peeks
lingered calls (err e) peeks = 0

-- The frame is written and read in blocking mode, if the system switches to it.
serve : Calls → Sink → Text → List Peek → Instance → Served
serve calls w provide after i =
    let blocking = set_blocking calls.to_wait true i in
    let result = write_frame provide w in
    record {
      answer = ok true;
      provided = some (received w result);
      took = calls.writing + lingered calls result after;
      instance_ = set_blocking calls.to_nowait false (disconnect blocking);
    }

-- The peek before `provide` tells whether the poller is still there.
probed : Calls → Result (Option ℕ) → Sink → Text → List Peek → Instance → Served
probed calls (err e) w provide after i = unserved (err e) i
probed calls (ok none) w provide after i = unserved (ok false) (disconnect i)
probed calls (ok (some n)) w provide after i = serve calls w provide after i

met : Calls → Result Bool × Instance → Peek → Sink → Text → List Peek → Served
met calls (err e, i) probe w provide after = unserved (err e) i
met calls (ok false, i) probe w provide after = unserved (ok false) i
met calls (ok true, i) probe w provide after = probed calls (available probe) w provide after i

unfoldable pub try_serve_poll :
    Calls → Connect → Peek → Sink → Text → List Peek → OutboundServerPipe → Served
unfolding check_connected available disconnect set_blocking linger received lingered serve probed
    met
try_serve_poll calls c probe w provide after p =
    met calls (check_connected c p.instance_) probe w provide after

linger-bound : (n : ℕ) (ps : List Peek) → linger n ps ≤ 5 * n
unfolding linger
linger-bound zero ps = omega arith
linger-bound (suc n) [] = omega arith
linger-bound (suc n) (p ∷ ps) = ground (arith, linger-bound n ps)

check_connected-mode : (c : Connect) (i : Instance) → (check_connected c i).1.blocking ≡ i.blocking
unfolding check_connected
check_connected-mode c i = ground arith

module _ (calls : Calls) where
  -- What a call may leave of an instance in the mode of the connect checks.
  abbrev pub Sound : Served → Type 0
  Sound s =
      ((is_some s.provided ≡ true) ↔ (s.answer ≡ ok true))
      × (s.instance_.blocking ≡ (is_some s.provided && (calls.to_wait && not calls.to_nowait)))
      × (s.took ≤ (if is_some s.provided then calls.writing + calls.flushing + 2000 else 0))
      × ((is_some s.provided && s.instance_.connected) ≡ false)

  ok_false≢ok_true : ◌≢◌ {A = Result Bool} (ok false) (ok true)
  ok_false≢ok_true h = cc

  err≢ok_true : (e : String) → ◌≢◌ {A = Result Bool} (err e) (ok true)
  err≢ok_true e h = cc

  unserved-Sound :
      (r : Result Bool) (i : Instance) → r ≢ ok true → i.blocking ≡ false → Sound (unserved r i)
  unserved-Sound r i differs h = ((λ e. cc, λ e. absurd (differs e)), h, omega arith, refl)

  lingered-bound : (r : Result Sink) (ps : List Peek) → lingered calls r ps ≤ calls.flushing + 2000
  unfolding lingered
  lingered-bound (ok w) ps = omega (arith, linger-bound 400 ps)
  lingered-bound (err e) ps = omega arith

  switched :
      (i : Instance)
      → i.blocking ≡ false
      → (set_blocking calls.to_nowait false
          (disconnect (set_blocking calls.to_wait true i))).blocking
        ≡ (calls.to_wait && not calls.to_nowait)
  unfolding set_blocking disconnect
  switched i h = ground (arith, h)

  freed :
      (a b : Bool) (i : Instance)
      → (set_blocking a false (disconnect (set_blocking b true i))).connected ≡ false
  unfolding set_blocking disconnect
  freed a b i = ground arith

  serve-Sound :
      (w : Sink) (provide : Text) (after : List Peek) (i : Instance)
      → i.blocking ≡ false
      → Sound (serve calls w provide after i)
  unfolding serve
  serve-Sound w provide after i h = (
    (λ e. refl, λ e. refl),
    switched i h,
    omega (arith, lingered-bound (write_frame provide w) after),
    freed calls.to_nowait calls.to_wait i,
  )

  probed-Sound :
      (r : Result (Option ℕ)) (w : Sink) (provide : Text) (after : List Peek) (i : Instance)
      → i.blocking ≡ false
      → Sound (probed calls r w provide after i)
  unfolding probed disconnect
  probed-Sound (err e) w provide after i h = unserved-Sound (err e) i (err≢ok_true e) h
  probed-Sound (ok none) w provide after i h =
      unserved-Sound (ok false) (disconnect i) ok_false≢ok_true h
  probed-Sound (ok (some n)) w provide after i h = serve-Sound w provide after i h

  met-Sound :
      (r : Result Bool × Instance) (probe : Peek) (w : Sink) (provide : Text) (after : List Peek)
      → r.1.blocking ≡ false
      → Sound (met calls r probe w provide after)
  unfolding met
  met-Sound (err e, i) probe w provide after h = unserved-Sound (err e) i (err≢ok_true e) h
  met-Sound (ok false, i) probe w provide after h = unserved-Sound (ok false) i ok_false≢ok_true h
  met-Sound (ok true, i) probe w provide after h =
      probed-Sound (available probe) w provide after i h

  -- One call for an instance in the mode of the connect checks, whatever the system answers, if its
  -- calls return: the outbox is emptied exactly if the answer is that a poll was served; the instance is
  -- left in blocking mode exactly if a poll was served and the system granted the switch to that mode but
  -- not the one back; the call takes two seconds at most beyond the system's own write and flush, and no
  -- time if no poll is served; and after a served poll the pipe is free for the next poller.
  pub try_serve_poll-Sound :
      (c : Connect) (probe : Peek) (w : Sink) (provide : Text) (after : List Peek)
      (p : OutboundServerPipe)
      → p.instance_.blocking ≡ false
      → Sound (try_serve_poll calls c probe w provide after p)
  unfolding try_serve_poll
  try_serve_poll-Sound c probe w provide after p h =
      met-Sound (check_connected c p.instance_) probe w provide after
        (check_connected-mode c p.instance_ ∙ h)
