-- ===== src/Pipes/Stream.antt =====
-- Extracting frames from a buffer that fills up piece by piece.
use Prim.Native.String.{String}
use mathlib.Core.List.{append-nil, append_assoc}
use stadhouder.Base.{
  ◌≢◌, sym, ◌∙◌, ap, All, ℕ, zero, suc, ◌+◌, ◌≤◌, ◌<◌, ◌≡◌, refl, ◌⊎◌, inl, inr, List, [], ◌∷◌,
  ◌++◌, arith, Text, length, Result, ok, err, length-append, length-drop, take-append, drop-append,
}
use stadhouder.Utf8.{Bytes}
use stadhouder.Pipes.Frame.{
  extract_frames, extract_loop, front_at, from_le_bytes, Front, partial, bad, frame, next_frame,
}
use stadhouder.Pipes.Frame.Laws.{Fits, frame_bytes, next_frame-frame_bytes}

pub Front-cases :
    (f : Front)
    → (f ≡ partial) ⊎ (((m : String) × (f ≡ bad m)) ⊎ ((t : Text) × (r : Bytes) × (f ≡ frame t r)))
Front-cases partial = inl refl
Front-cases (bad m) = inr (inl (m, refl))
Front-cases (frame t r) = inr (inr (t, r, refl))

front_at-shorter :
    (len : ℕ) (s : Bytes) (t : Text) (r : Bytes) → front_at len s ≡ frame t r → length r ≤ length s
unfolding front_at
front_at-shorter len s t r h = ground (arith, length-drop len s)

-- A frame takes its four length bytes and its message off the buffer.
pub next_frame-shorter :
    (s : Bytes) (t : Text) (r : Bytes) → next_frame s ≡ frame t r → length r + 4 ≤ length s
unfolding next_frame
next_frame-shorter (a ∷ b ∷ c ∷ d ∷ s) t r h =
    omega (arith, front_at-shorter (from_le_bytes a b c d) s t r h)
next_frame-shorter _ t r h = cc

-- More bytes behind it do not change a front that is already decided.
front_at-append :
    (len : ℕ) (s more : Bytes) (t : Text) (r : Bytes)
    → front_at len s ≡ frame t r
    → front_at len (s ++ more) ≡ frame t (r ++ more)
unfolding front_at
front_at-append len s more t r h =
    ground (arith, take-append len s more, drop-append len s more, length-append s more)

next_frame-append :
    (s more : Bytes) (t : Text) (r : Bytes)
    → next_frame s ≡ frame t r
    → next_frame (s ++ more) ≡ frame t (r ++ more)
unfolding next_frame
next_frame-append (a ∷ b ∷ c ∷ d ∷ s) more t r h =
    front_at-append (from_le_bytes a b c d) s more t r h
next_frame-append _ more t r h = cc

front_at-bad-append :
    (len : ℕ) (s more : Bytes) (m : String)
    → front_at len s ≡ bad m
    → front_at len (s ++ more) ≡ bad m
unfolding front_at
front_at-bad-append len s more m h =
    ground (arith, take-append len s more, drop-append len s more, length-append s more)

bad-append : (s more : Bytes) (m : String) → next_frame s ≡ bad m → next_frame (s ++ more) ≡ bad m
unfolding next_frame
bad-append (a ∷ b ∷ c ∷ d ∷ s) more m h = front_at-bad-append (from_le_bytes a b c d) s more m h
bad-append _ more m h = cc

-- What the loop has found is carried along.
abbrev pub prepend : List Text → Result (List Text) × Bytes → Result (List Text) × Bytes
prepend fs (ok gs, r) = (ok (fs ++ gs), r)
prepend fs (err e, r) = (err e, r)

pub prepend-nil : (x : Result (List Text) × Bytes) → x ≡ prepend [] x
prepend-nil (ok gs, r) = refl
prepend-nil (err e, r) = refl

pub prepend-append :
    (fs gs : List Text) (x : Result (List Text) × Bytes)
    → prepend (fs ++ gs) x ≡ prepend fs (prepend gs x)
prepend-append fs gs (ok hs, r) = rw (append_assoc fs gs hs)
prepend-append fs gs (err e, r) = refl

extract_loop-prepend :
    (n : ℕ) (fs gs : List Text) (s : Bytes)
    → extract_loop n (fs ++ gs) s ≡ prepend fs (extract_loop n gs s)
unfolding extract_loop
extract_loop-prepend zero fs gs s = refl
extract_loop-prepend (suc n) fs gs s = elim (Front-cases (next_frame s)) [
  | inl e ↦ rw (e, extract_loop) refl
  | inr (inl (m, e)) ↦ rw (e, extract_loop) refl
  | inr (inr (t, r, e)) ↦
      rw (e, extract_loop, append_assoc fs gs (t ∷ [])) (extract_loop-prepend n fs (gs ++ t ∷ []) r)
]

-- Any fuel above the buffer's length gives the same result.
extract_loop_fuel :
    (n m : ℕ) (fs : List Text) (s : Bytes)
    → length s < n
    → length s < m
    → extract_loop n fs s ≡ extract_loop m fs s
unfolding extract_loop
extract_loop_fuel zero m fs s h k = absurd (omega arith)
extract_loop_fuel (suc n) zero fs s h k = absurd (omega arith)
extract_loop_fuel (suc n) (suc m) fs s h k = elim (Front-cases (next_frame s)) [
  | inl e ↦ rw (e, extract_loop) refl
  | inr (inl (m, e)) ↦ rw (e, extract_loop) refl
  | inr (inr (t, r, e)) ↦
      rw (e, extract_loop)
        (extract_loop_fuel n m (fs ++ t ∷ []) r (omega (arith, next_frame-shorter s t r e))
          (omega (arith, next_frame-shorter s t r e)))
]

-- Going on with the bytes that arrive next, after what one call has left.
abbrev pub go_on : Result (List Text) × Bytes → Bytes → Result (List Text) × Bytes
go_on (ok fs, r) more = prepend fs (extract_frames (r ++ more))
go_on (err e, r) more = (err e, r ++ more)

pub extract_loop-partial :
    (n : ℕ) (fs : List Text) (s : Bytes)
    → next_frame s ≡ partial
    → extract_loop (suc n) fs s ≡ (ok fs, s)
unfolding extract_loop
extract_loop-partial n fs s e = rw (e, extract_loop) refl

pub extract_loop-frame :
    (n : ℕ) (fs : List Text) (s : Bytes) (t : Text) (r : Bytes)
    → next_frame s ≡ frame t r
    → extract_loop (suc n) fs s ≡ extract_loop n (fs ++ t ∷ []) r
unfolding extract_loop
extract_loop-frame n fs s t r e = rw (e, extract_loop) refl

extract_loop-extract_frames :
    (n : ℕ) (fs : List Text) (s : Bytes)
    → length s < n
    → extract_loop n fs s ≡ prepend fs (extract_frames s)
unfolding extract_frames
extract_loop-extract_frames n fs s h =
    ap (λ gs. extract_loop n gs s) (sym (append-nil fs))
    ∙ extract_loop-prepend n fs [] s
    ∙ ap (prepend fs) (extract_loop_fuel n (suc (length s)) [] s h (omega arith))

extract_loop-append :
    (n m : ℕ) (fs : List Text) (s more : Bytes)
    → length s < n
    → length (s ++ more) < m
    → extract_loop m fs (s ++ more) ≡ go_on (extract_loop n fs s) more
unfolding extract_loop
extract_loop-append zero m fs s more h k = absurd (omega arith)
extract_loop-append (suc n) zero fs s more h k = absurd (omega arith)
extract_loop-append (suc n) (suc m) fs s more h k = elim (Front-cases (next_frame s)) [
  | inl e ↦
      extract_loop-extract_frames (suc m) fs (s ++ more) k
      ∙ ap (λ x. go_on x more) (sym (extract_loop-partial n fs s e))
  | inr (inl (m, e)) ↦ rw (e, bad-append s more m e, extract_loop) refl
  | inr (inr (t, r, e)) ↦
      rw (e, next_frame-append s more t r e, extract_loop)
        (extract_loop-append n m (fs ++ t ∷ []) r more (omega (arith, next_frame-shorter s t r e)) (
          omega
            (arith, next_frame-shorter (s ++ more) t (r ++ more) (next_frame-append s more t r e))))
]

-- However the bytes are cut into pieces, the frames are the same: extracting from what a first piece
-- left, once the next piece has been appended to it, continues as if both had arrived at once; after
-- a bad frame the buffer only grows.
pub extract_frames-append :
    (s more : Bytes) → extract_frames (s ++ more) ≡ go_on (extract_frames s) more
unfolding extract_frames
extract_frames-append s more =
    extract_loop-append (suc (length s)) (suc (length (s ++ more))) [] s more (omega arith)
      (omega arith)

-- The bytes of a sequence of frames.
abbrev pub stream : List Text → Bytes
stream [] = []
stream (m ∷ ms) = frame_bytes m ++ stream ms

extract_frames-frame_bytes :
    (m : Text) (s : Bytes)
    → Fits m
    → extract_frames (frame_bytes m ++ s) ≡ prepend (m ∷ []) (extract_frames s)
unfolding extract_frames
extract_frames-frame_bytes m s h =
    let e = next_frame-frame_bytes m s h in
    let here = frame_bytes m ++ s in
    extract_loop-frame (length here) [] here m s e
    ∙ extract_loop-extract_frames (length here) (m ∷ []) s
        (omega (arith, next_frame-shorter here m s e))

-- Messages that were written one behind the other come out in order, all of them, and what follows
-- them is treated as if it stood at the front.
pub extract_frames-stream :
    (ms : List Text) (s : Bytes)
    → All Fits ms
    → extract_frames (stream ms ++ s) ≡ prepend ms (extract_frames s)
extract_frames-stream [] s h = prepend-nil (extract_frames s)
extract_frames-stream (m ∷ ms) s h =
    rw
      (
        append_assoc (frame_bytes m) (stream ms) s,
        extract_frames-frame_bytes m (stream ms ++ s) h.0,
        extract_frames-stream ms s h.1,
      )
      (sym (prepend-append (m ∷ []) ms (extract_frames s)))

pub extract_frames-stream_only :
    (ms : List Text) → All Fits ms → extract_frames (stream ms) ≡ (ok ms, [])
unfolding extract_frames
extract_frames-stream_only ms fit =
    ap extract_frames (sym (append-nil (stream ms)))
    ∙ extract_frames-stream ms [] fit
    ∙ ap (λ fs. (ok fs, [])) (append-nil ms)

pub extract_frames-bad :
    (s : Bytes) (m : String) → next_frame s ≡ bad m → extract_frames s ≡ (err m, s)
unfolding extract_frames
extract_frames-bad s m e = rw (e, extract_loop) refl

pub ok≢err :
    (fs : List Text) (s r : Bytes) (e : String)
    → ◌≢◌ {A = Result (List Text) × Bytes} (ok fs, s) (err e, r)
ok≢err fs s r e h = cc (ap (λ (x : Result (List Text) × Bytes). x.0) h)

stopped :
    (n : ℕ) (fs : List Text) (s r : Bytes) (e m : String)
    → next_frame s ≡ bad m
    → extract_loop (suc n) fs s ≡ (err e, r)
    → next_frame r ≡ bad e
unfolding extract_loop
stopped n fs s r e m f h = ground (arith, f)

extract_loop-err :
    (n : ℕ) (fs : List Text) (s r : Bytes) (e : String)
    → extract_loop n fs s ≡ (err e, r)
    → next_frame r ≡ bad e
extract_loop-err zero fs s r e h = absurd (ok≢err fs s r e (unfold extract_loop in h))
extract_loop-err (suc n) fs s r e h = elim (Front-cases (next_frame s)) [
  | inl f ↦ absurd (ok≢err fs s r e (sym (extract_loop-partial n fs s f) ∙ h))
  | inr (inl (m, f)) ↦ stopped n fs s r e m f h
  | inr (inr (t, r', f)) ↦
      extract_loop-err n (fs ++ t ∷ []) r' r e (sym (extract_loop-frame n fs s t r' f) ∙ h)
]

-- What a failed call leaves stands at a bad frame.
pub extract_frames-err :
    (s r : Bytes) (e : String) → extract_frames s ≡ (err e, r) → next_frame r ≡ bad e
unfolding extract_frames
extract_frames-err s r e h = extract_loop-err (suc (length s)) [] s r e h
