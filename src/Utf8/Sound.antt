-- ===== src/Utf8/Sound.antt =====
-- What was decoded encodes to the bytes that it was decoded from.
use stadhouder.Base.{
  ℕ, zero, suc, ◌+◌, ◌-◌, ◌*◌, ◌/◌, ◌%◌, ◌<◌, ◌≤◌, ◌≡◌, refl, ◌⊎◌, [], ◌∷◌, ◌++◌, leb, ◌&&◌, arith,
  inl, inr, true, false, ◌∙◌, if◌then◌else◌, Option, none, some, Text, All,
}
use mathlib.Core.List.{append_assoc}
use stadhouder.Utf8.{
  Bytes, IsChar, encode_char, encode, decode, decode_from, continue, lead, push, Progress, invalid,
  whole, due,
}

lead-whole : (b c : ℕ) → lead b ≡ whole c → IsChar c × (encode_char c ≡ b ∷ [])
unfolding lead encode_char
lead-whole b c h = ground arith

-- The six bits at each place of what three groups of bits make.
low : (x y z v : ℕ) → y < 64 → z < 64 → v ≡ (x * 64 + y) * 64 + z → v % 64 ≡ z
low x y z v hy hz e = omega arith

middle : (x y z v : ℕ) → y < 64 → z < 64 → v ≡ (x * 64 + y) * 64 + z → v / 64 % 64 ≡ y
middle x y z v hy hz e = omega arith

high : (x y z v : ℕ) → y < 64 → z < 64 → v ≡ (x * 64 + y) * 64 + z → v / 4096 ≡ x
high x y z v hy hz e = omega arith

encode_char-three :
    (v : ℕ)
    → 0x800 ≤ v
    → v < 0x10000
    → encode_char v ≡ (224 + v / 4096) ∷ (128 + v / 64 % 64) ∷ (128 + v % 64) ∷ []
unfolding encode_char
encode_char-three v h k = ground arith

encode_char-four :
    (v : ℕ)
    → 0x10000 ≤ v
    → encode_char v
      ≡ (240 + v / 262144) ∷ (128 + v / 4096 % 64) ∷ (128 + v / 64 % 64) ∷ (128 + v % 64) ∷ []
unfolding encode_char
encode_char-four v h = ground arith

third :
    (w x y z v : ℕ)
    → x < 64
    → y < 64
    → z < 64
    → v ≡ ((w * 64 + x) * 64 + y) * 64 + z
    → v / 4096 % 64 ≡ x
third w x y z v hx hy hz e = omega arith

fourth :
    (w x y z v : ℕ)
    → x < 64
    → y < 64
    → z < 64
    → v ≡ ((w * 64 + x) * 64 + y) * 64 + z
    → v / 262144 ≡ w
fourth w x y z v hx hy hz e = omega arith

-- `v` is a character that the bytes stand for.
abbrev Ends : ℕ → Bytes → Type 0
Ends v bs = IsChar v × (encode_char v ≡ bs)

Ends-three :
    (x y z : ℕ)
    → x < 16
    → y < 64
    → z < 64
    → (32 ≤ y) ⊎ (1 ≤ x)
    → (y < 32) ⊎ ((x < 13) ⊎ (14 ≤ x))
    → Ends ((x * 64 + y) * 64 + z) ((224 + x) ∷ (128 + y) ∷ (128 + z) ∷ [])
Ends-three x y z hx hy hz hl hu =
    let v = (x * 64 + y) * 64 + z in
    (
      omega arith,
      rw
          (
            encode_char-three v (omega arith) (omega arith),
            low x y z v hy hz refl,
            middle x y z v hy hz refl,
            high x y z v hy hz refl,
          )
          refl,
    )

Ends-four :
    (w x y z : ℕ)
    → w < 5
    → x < 64
    → y < 64
    → z < 64
    → (16 ≤ x) ⊎ (1 ≤ w)
    → (x < 16) ⊎ (w < 4)
    → Ends (((w * 64 + x) * 64 + y) * 64 + z) ((240 + w) ∷ (128 + x) ∷ (128 + y) ∷ (128 + z) ∷ [])
Ends-four w x y z hw hx hy hz hl hu =
    let v = ((w * 64 + x) * 64 + y) * 64 + z in
    (
      omega arith,
      rw
          (
            encode_char-four v (omega arith),
            low (w * 64 + x) y z v hy hz refl,
            middle (w * 64 + x) y z v hy hz refl,
            third w x y z v hx hy hz refl,
            fourth w x y z v hx hy hz refl,
          )
          refl,
    )

-- The bytes `pre` begin a character, and whatever ends it has them in front.
unfoldable Pending : ℕ → ℕ → ℕ → ℕ → Bytes → Type 0
Pending zero lo hi acc pre = pre ≡ []
Pending (suc zero) lo hi acc pre =
    (b : ℕ) → lo ≤ b → b ≤ hi → Ends (acc * 64 + (b - 128)) (pre ++ b ∷ [])
Pending (suc (suc k)) lo hi acc pre =
    (b : ℕ) → lo ≤ b → b ≤ hi → Pending (suc k) 0x80 0xbf (acc * 64 + (b - 128)) (pre ++ b ∷ [])

After : Progress → Bytes → Type 0
After invalid bs = Unit
After (whole c) bs = Ends c bs
After (due k lo hi acc) bs = Pending k lo hi acc bs

lead-cases :
    (b : ℕ)
    → (lead b ≡ invalid)
      ⊎ (((lead b ≡ whole b) × (b < 128))
          ⊎ (((lead b ≡ due 1 0x80 0xbf (b - 0xc0)) × ((0xc2 ≤ b) × (b ≤ 0xdf)))
              ⊎ (((lead b
                      ≡ due 2
                          (if leb b 0xe0 then 0xa0 else 0x80)
                          (if leb 0xed b && leb b 0xed then 0x9f else 0xbf)
                          (b - 0xe0))
                    × ((0xe0 ≤ b) × (b ≤ 0xef)))
                  ⊎ ((lead b
                        ≡ due 3
                            (if leb b 0xf0 then 0x90 else 0x80)
                            (if leb 0xf4 b then 0x8f else 0xbf)
                            (b - 0xf0))
                      × ((0xf0 ≤ b) × (b ≤ 0xf4))))))
unfolding lead
lead-cases b = ground arith

Pending-two : (b : ℕ) → 0xc2 ≤ b → b ≤ 0xdf → Pending 1 0x80 0xbf (b - 0xc0) (b ∷ [])
unfolding Pending encode_char
Pending-two b h k c hl hu = ground arith

add_sub : (k b : ℕ) → k ≤ b → k + (b - k) ≡ b
add_sub k b h = omega arith

Pending-three :
    (b : ℕ)
    → 0xe0 ≤ b
    → b ≤ 0xef
    → Pending 2
        (if leb b 0xe0 then 0xa0 else 0x80)
        (if leb 0xed b && leb b 0xed then 0x9f else 0xbf)
        (b - 0xe0)
        (b ∷ [])
unfolding Pending
Pending-three b h k c cl cu d dl du =
    let e =
      Ends-three (b - 224) (c - 128) (d - 128) (omega arith) (ground arith) (omega arith)
        (ground arith) (ground arith) in
    (e.0, e.1 ∙ rw (add_sub 224 b h, add_sub 128 c (ground arith), add_sub 128 d dl) refl)

Pending-four :
    (b : ℕ)
    → 0xf0 ≤ b
    → b ≤ 0xf4
    → Pending 3
        (if leb b 0xf0 then 0x90 else 0x80)
        (if leb 0xf4 b then 0x8f else 0xbf)
        (b - 0xf0)
        (b ∷ [])
unfolding Pending
Pending-four b h k c cl cu d dl du e el eu =
    let r =
      Ends-four (b - 240) (c - 128) (d - 128) (e - 128) (omega arith) (ground arith) (omega arith)
        (omega arith) (ground arith) (ground arith) in
    (
      r.0,
      r.1
          ∙ rw (add_sub 240 b h, add_sub 128 c (ground arith), add_sub 128 d dl, add_sub 128 e el)
              refl,
    )

lead-After : (b : ℕ) → After (lead b) (b ∷ [])
unfolding After
lead-After b = elim (lead-cases b) [
  | inl e ↦ rw e tt
  | inr (inl (e, h)) ↦ rw e (lead-whole b b e)
  | inr (inr (inl (e, h))) ↦ rw e (Pending-two b h.0 h.1)
  | inr (inr (inr (inl (e, h)))) ↦ rw e (Pending-three b h.0 h.1)
  | inr (inr (inr (inr (e, h)))) ↦ rw e (Pending-four b h.0 h.1)
]

in_range :
    (lo hi b : ℕ)
    → (((leb lo b && leb b hi) ≡ true) × ((lo ≤ b) × (b ≤ hi))) ⊎ ((leb lo b && leb b hi) ≡ false)
in_range lo hi b = ground arith

continue-After :
    (k lo hi acc b : ℕ) (pre : Bytes)
    → Pending k lo hi acc pre
    → After (continue k lo hi acc b) (pre ++ b ∷ [])
unfolding After continue Pending
continue-After zero lo hi acc b pre h = rw h (lead-After b)
continue-After (suc zero) lo hi acc b pre h = elim (in_range lo hi b) [
  | inl (e, r) ↦ rw e (h b r.0 r.1)
  | inr e ↦ rw e tt
]
continue-After (suc (suc k)) lo hi acc b pre h = elim (in_range lo hi b) [
  | inl (e, r) ↦ rw e (h b r.0 r.1)
  | inr e ↦ rw e tt
]

unfoldable Decodes : Bytes → Type 0
Decodes s =
    (k lo hi acc : ℕ) (pre : Bytes) (t : Text)
    → Pending k lo hi acc pre
    → decode_from k lo hi acc s ≡ some t
    → All IsChar t × (encode t ≡ pre ++ s)

push-some :
    (c : ℕ) (o : Option Text) (t : Text)
    → push c o ≡ some t
    → (u : Text) × ((o ≡ some u) × (c ∷ u ≡ t))
push-some c none t h = ground arith
push-some c (some u) t h = (u, (refl, ground arith))

goes_on :
    (p : Progress) (bs s : Bytes) (t : Text)
    → Decodes s
    → After p bs
    → elim p [
      | invalid ↦ none
      | whole c ↦ push c (decode_from 0 0 0 0 s)
      | due k lo hi acc ↦ decode_from k lo hi acc s
    ]
      ≡ some t
    → All IsChar t × (encode t ≡ bs ++ s)
unfolding Decodes After Pending encode
goes_on invalid bs s t d a h = ground arith
goes_on (whole c) bs s t d a h =
    let (u, (e, f)) = push-some c (decode_from 0 0 0 0 s) t h in
    let r = d 0 0 0 0 [] u refl e in rw (← f) ((a.0, r.0), rw (a.1, r.1) refl)
goes_on (due k lo hi acc) bs s t d a h = d k lo hi acc bs t a h

decodes : (s : Bytes) → Decodes s
unfolding Decodes decode_from encode Pending lead continue
decodes [] zero lo hi acc pre [] p h = (tt, rw p refl)
decodes [] zero lo hi acc pre (c ∷ t) p h = ground arith
decodes [] (suc k) lo hi acc pre t p h = ground arith
decodes (b ∷ s) zero lo hi acc pre t p h =
    rw p (goes_on (lead b) (b ∷ []) s t (decodes s) (lead-After b) h)
decodes (b ∷ s) (suc zero) lo hi acc pre t p h = rw (← append_assoc pre (b ∷ []) s) (
    goes_on (continue 1 lo hi acc b) (pre ++ b ∷ []) s t (decodes s)
      (continue-After 1 lo hi acc b pre p) h)
decodes (b ∷ s) (suc (suc k)) lo hi acc pre t p h = rw (← append_assoc pre (b ∷ []) s) (
    goes_on (continue (suc (suc k)) lo hi acc b) (pre ++ b ∷ []) s t (decodes s)
      (continue-After (suc (suc k)) lo hi acc b pre p) h)

-- A text that was decoded has characters only, and encodes to the bytes it came from.
pub encode-decode : (s : Bytes) (t : Text) → decode s ≡ some t → All IsChar t × (encode t ≡ s)
unfolding decode Decodes Pending
encode-decode s t h = decodes s 0 0 0 0 [] t refl h
