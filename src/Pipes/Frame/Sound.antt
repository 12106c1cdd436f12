-- ===== src/Pipes/Frame/Sound.antt =====
-- What is extracted from a buffer are the frames that stand in it.
use mathlib.Core.Path.{subst}
use mathlib.Core.List.{append_assoc, append-nil}
use stadhouder.Base.{
  ℕ, zero, suc, ◌≤◌, ◌<◌, ◌≡◌, refl, ap, sym, ◌∙◌, inl, inr, some, List, [], ◌∷◌, ◌++◌, arith, Text,
  All, length, take, drop, Result, ok, err,
}
use stadhouder.Utf8.{Bytes, encode, decode}
use stadhouder.Utf8.Sound.{encode-decode}
use stadhouder.Pipes.Frame.{
  String, partial, bad, frame, front_at, next_frame, from_le_bytes, to_le_bytes, max_frame_bytes,
  extract_frames, extract_loop,
}
use stadhouder.Pipes.Frame.Laws.{Fits, frame_bytes}
use stadhouder.Pipes.Stream.{
  stream, Front-cases, next_frame-shorter, extract_loop-partial, extract_loop-frame, ok≢err,
}

to_le_bytes-from_le_bytes :
    (a b c d : ℕ)
    → a < 256
    → b < 256
    → c < 256
    → d < 256
    → to_le_bytes (from_le_bytes a b c d) ≡ a ∷ b ∷ c ∷ d ∷ []
unfolding to_le_bytes from_le_bytes
to_le_bytes-from_le_bytes a b c d ha hb hc hd = ground arith

module _ {ℓ} {A : Type ℓ} where
  take-drop : (n : ℕ) (s : List A) → take n s ++ drop n s ≡ s
  take-drop zero s = refl
  take-drop (suc n) [] = refl
  take-drop (suc n) (x ∷ s) = ap (◌∷◌ x) (take-drop n s)

  length-take : (n : ℕ) (s : List A) → n ≤ length s → length (take n s) ≡ n
  length-take zero s h = refl
  length-take (suc n) [] h = absurd (omega arith)
  length-take (suc n) (x ∷ s) h = omega (arith, length-take n s (omega arith))

front_at-frame :
    (len : ℕ) (s : Bytes) (t : Text) (r : Bytes)
    → front_at len s ≡ frame t r
    → (len ≤ max_frame_bytes)
      × ((len ≤ length s) × ((decode (take len s) ≡ some t) × (drop len s ≡ r)))
unfolding front_at
front_at-frame len s t r h = (ground arith, (ground arith, (ground arith, ground arith)))

abbrev pub IsByte : ℕ → Type 0
IsByte b = b < 256

front_at-Sound :
    (a b c d : ℕ) (s : Bytes) (t : Text) (r : Bytes)
    → All IsByte (a ∷ b ∷ c ∷ d ∷ [])
    → front_at (from_le_bytes a b c d) s ≡ frame t r
    → Fits t × (frame_bytes t ++ r ≡ a ∷ b ∷ c ∷ d ∷ s)
unfolding frame_bytes
front_at-Sound a b c d s t r (ha, (hb, (hc, (hd, _)))) h =
    let len = from_le_bytes a b c d in
    let (small, (there, (e, f))) = front_at-frame len s t r h in
    let (chars, g) = encode-decode (take len s) t e in
    let size : length (encode t) ≡ len = ap length g ∙ length-take len s there in
    (
      record { chars = chars; small = omega arith },
      rw (size, g, ← f, take-drop len s)
          (ap (λ x. x ++ s) (to_le_bytes-from_le_bytes a b c d ha hb hc hd)),
    )

next_frame-Sound :
    (s : Bytes) (t : Text) (r : Bytes)
    → All IsByte s
    → next_frame s ≡ frame t r
    → Fits t × (frame_bytes t ++ r ≡ s)
unfolding next_frame
next_frame-Sound (a ∷ b ∷ c ∷ d ∷ s) t r (ha, (hb, (hc, (hd, _)))) h =
    front_at-Sound a b c d s t r (ha, (hb, (hc, (hd, tt)))) h
next_frame-Sound _ t r w h = cc

All-back : (s r : Bytes) → All IsByte (s ++ r) → All IsByte r
All-back [] r h = h
All-back (b ∷ s) r h = All-back s r h.1

-- The frames that the loop has found behind those that it had.
record Found (fs : List Text) (s : Bytes) (ms : List Text) (r : Bytes) : Type 0 where
  found : List Text
  all : fs ++ found ≡ ms
  fit : All Fits found
  bytes : stream found ++ r ≡ s
  rest : next_frame r ≡ partial

Found-cons :
    (fs ms : List Text) (s r u : Bytes) (t : Text)
    → Fits t
    → frame_bytes t ++ u ≡ s
    → Found (fs ++ t ∷ []) u ms r
    → Found fs s ms r
Found-cons fs ms s r u t h e f = record {
  found = t ∷ f.found;
  all = sym (append_assoc fs (t ∷ []) f.found) ∙ f.all;
  fit = (h, f.fit);
  bytes =
      append_assoc (frame_bytes t) (stream f.found) r ∙ ap (λ x. frame_bytes t ++ x) f.bytes ∙ e;
  rest = f.rest;
}

Found-nil :
    (fs ms : List Text) (s r : Bytes)
    → next_frame s ≡ partial
    → (fs ≡ ms) × (s ≡ r)
    → Found fs s ms r
Found-nil fs ms s r f (e, g) = record {
  found = [];
  all = append-nil fs ∙ e;
  fit = tt;
  bytes = sym g;
  rest = subst (λ x. next_frame x ≡ partial) g f;
}

ok_pair :
    (fs ms : List Text) (s r : Bytes)
    → ◌≡◌ {A = Result (List Text) × Bytes} (ok fs, s) (ok ms, r)
    → (fs ≡ ms) × (s ≡ r)
ok_pair fs ms s r e = (
  cc (ap (λ (x : Result (List Text) × Bytes). x.0) e),
  ap (λ (x : Result (List Text) × Bytes). x.1) e,
)

extract_loop-bad :
    (n : ℕ) (fs : List Text) (s : Bytes) (m : String)
    → next_frame s ≡ bad m
    → extract_loop (suc n) fs s ≡ (err m, s)
unfolding extract_loop
extract_loop-bad n fs s m e = rw (e, extract_loop) refl

extract_loop-Found :
    (n : ℕ) (fs ms : List Text) (s r : Bytes)
    → length s < n
    → All IsByte s
    → extract_loop n fs s ≡ (ok ms, r)
    → Found fs s ms r
extract_loop-Found zero fs ms s r h w e = absurd (omega arith)
extract_loop-Found (suc n) fs ms s r h w e = elim (Front-cases (next_frame s)) [
  | inl f ↦ Found-nil fs ms s r f (ok_pair fs ms s r (sym (extract_loop-partial n fs s f) ∙ e))
  | inr (inl (m, f)) ↦ absurd (ok≢err ms r s m (sym e ∙ extract_loop-bad n fs s m f))
  | inr (inr (t, u, f)) ↦
      let (fits, back) = next_frame-Sound s t u w f in
      Found-cons fs ms s r u t fits back (
        extract_loop-Found n (fs ++ t ∷ []) ms u r (omega (arith, next_frame-shorter s t u f))
          (All-back (frame_bytes t) u (subst (All IsByte) (sym back) w))
          (sym (extract_loop-frame n fs s t u f) ∙ e))
]

-- Where `extract_frames` succeeds, the messages are Rust strings within the frame limit, the buffer
-- was their frames one behind the other and then the bytes that are left, and at the front of those
-- stands no whole frame.
pub extract_frames-Sound :
    (s : Bytes) (ms : List Text) (r : Bytes)
    → All IsByte s
    → extract_frames s ≡ (ok ms, r)
    → All Fits ms × (stream ms ++ r ≡ s) × (next_frame r ≡ partial)
unfolding extract_frames
extract_frames-Sound s ms r w e =
    let f = extract_loop-Found (suc (length s)) [] ms s r (omega arith) w e in
    let g = f.all in (subst (All Fits) g f.fit, ap (λ x. stream x ++ r) (sym g) ∙ f.bytes, f.rest)
