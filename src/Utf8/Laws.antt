-- ===== src/Utf8/Laws.antt =====
-- Decoding what was encoded gives it back.
use stadhouder.Base.{ℕ, ◌≡◌, refl, some, [], ◌∷◌, ◌++◌, arith, Text, All}
use stadhouder.Utf8.{Bytes, IsChar, encode_char, encode, decode, decode_from, continue, lead, push}

decode-encode_char :
    (c : ℕ) (s : Bytes)
    → IsChar c
    → decode_from 0 0 0 0 (encode_char c ++ s) ≡ push c (decode_from 0 0 0 0 s)
unfolding encode_char decode_from continue lead
decode-encode_char c s h = ground arith

decode_from-encode : (s : Text) → All IsChar s → decode_from 0 0 0 0 (encode s) ≡ some s
unfolding encode
decode_from-encode [] h = unfold decode_from in refl
decode_from-encode (c ∷ s) h =
    rw (decode-encode_char c (encode s) h.0, decode_from-encode s h.1) refl

pub decode-encode : (s : Text) → All IsChar s → decode (encode s) ≡ some s
unfolding decode
decode-encode s h = decode_from-encode s h
