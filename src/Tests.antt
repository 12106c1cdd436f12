-- ===== src/Tests.antt =====
-- Concrete parameters for the tests: JSON values that are their own texts, numbers for `f64`, and
-- texts of the two records that serde writes.
pub mod Pipes
pub mod Loops
pub mod Rounds
pub mod Settings
pub mod Starts
pub mod Rosters
pub mod Ends
pub mod Replies
pub mod Clients
pub mod Windows
pub mod Values
pub mod Apps
use mathlib.Core.List.{append_assoc}
use stadhouder.Base.{
  ℕ, zero, suc, ◌+◌, ◌*◌, ◌/◌, ◌≡◌, refl, Bool, true, false, Option, none, some, List, [], ◌∷◌,
  ◌++◌, arith, Text, codes, text_eq, take, drop, length, take_all, drop_all, ltb, leb, is_empty,
  if◌then◌else◌, Assoc, Result, ok, ap, sym, ◌∙◌,
}
use stadhouder.Base.Int.{ℤ, pos, negsuc}
use stadhouder.Json.{Json, ReadsBack}
use stadhouder.Float.{Float}
use stadhouder.Text.{trim, trim_start, is_whitespace}
use stadhouder.Utf8.{encode, encode_char}
use stadhouder.State.{Serde, RoundTrips, ServiceFlag, ConnectionProfile}

abbrev pub commas : List Text → Text
commas [] = []
commas (v ∷ []) = v
commas (v ∷ vs) = v ++ 44 ∷ commas vs

abbrev pub first_key : Assoc Text → Text
first_key [] = []
first_key ((k, v) ∷ m) = k

abbrev pub texts : Json Text
texts = record {
  null = [];
  bool = λ b. [];
  int = λ z. [];
  string = λ s. s;
  array = commas;
  object = first_key;
  get = λ v k. if text_eq v k then some [] else none;
  is_null = is_empty;
  as_str = some;
  as_i64 = λ v. none;
  as_array = λ v. none;
  from_str = some;
  to_string = λ v. v;
}

pub texts-ReadsBack : ReadsBack texts
texts-ReadsBack = record { from_str-to_string = λ v. refl }

abbrev pub naturals : Float ℕ
naturals = record {
  zero = 0;
  one = 1;
  hundred = 100;
  of_i64 = λ z. elim z [ pos n ↦ n | negsuc n ↦ 0 ];
  of_u64 = λ n. n;
  to_i64 = pos;
  to_u64 = λ n. n;
  mul = ◌*◌;
  div = ◌/◌;
  max = λ a b. if ltb a b then b else a;
  gtb = λ a b. ltb b a;
  geb = λ a b. leb b a;
  parse = λ s. some (length s);
}

-- Numbers and texts one behind the other, each text with its length before it.
unfoldable pub put_text : Text → Text → Text
put_text s rest = length s ∷ s ++ rest

unfoldable pub put_int : ℤ → Text → Text
put_int (pos n) rest = 0 ∷ n ∷ rest
put_int (negsuc n) rest = 1 ∷ n ∷ rest

abbrev put_option : Option ℤ → Text
put_option none = []
put_option (some z) = put_int z []

unfoldable pub get_int : Text → ℤ × Text
get_int (zero ∷ n ∷ rest) = (pos n, rest)
get_int (suc c ∷ n ∷ rest) = (negsuc n, rest)
get_int _ = (pos 0, [])

unfoldable pub get_text : Text → Text × Text
get_text [] = ([], [])
get_text (n ∷ s) = (take n s, drop n s)

abbrev get_option : Text → Option ℤ
get_option [] = none
get_option (c ∷ s) = some (get_int (c ∷ s)).0

abbrev pub profile_text : ConnectionProfile → Text
profile_text p = put_text p.connection_id (
    put_text p.user_id (
      put_text p.client_to_server_pipe (
        put_text p.server_to_client_pipe
          (put_int p.established_ms (put_option p.established_sim_ms)))))

abbrev text_profile : Text → ConnectionProfile
text_profile s =
    let (id, s₁) = get_text s in
    let (user, s₂) = get_text s₁ in
    let (up, s₃) = get_text s₂ in
    let (down, s₄) = get_text s₃ in
    let (established, s₅) = get_int s₄ in
    record {
      connection_id = id;
      user_id = user;
      client_to_server_pipe = up;
      server_to_client_pipe = down;
      established_ms = established;
      established_sim_ms = get_option s₅;
    }

get-put_text : (s rest : Text) → get_text (put_text s rest) ≡ (s, rest)
unfolding put_text get_text
get-put_text s rest = rw (take_all s rest, drop_all s rest) refl

get-put_int : (z : ℤ) (rest : Text) → get_int (put_int z rest) ≡ (z, rest)
unfolding put_int get_int
get-put_int (pos n) rest = refl
get-put_int (negsuc n) rest = refl

get-put_option : (o : Option ℤ) → get_option (put_option o) ≡ o
unfolding put_int get_int
get-put_option none = refl
get-put_option (some (pos n)) = refl
get-put_option (some (negsuc n)) = refl

text_profile-profile_text : (p : ConnectionProfile) → text_profile (profile_text p) ≡ p
text_profile-profile_text p =
    let r₅ = put_option p.established_sim_ms in
    let r₄ = put_int p.established_ms r₅ in
    let r₃ = put_text p.server_to_client_pipe r₄ in
    let r₂ = put_text p.client_to_server_pipe r₃ in
    let r₁ = put_text p.user_id r₂ in
    rw
      (
        get-put_text p.connection_id r₁,
        get-put_text p.user_id r₂,
        get-put_text p.client_to_server_pipe r₃,
        get-put_text p.server_to_client_pipe r₄,
        get-put_int p.established_ms r₅,
        get-put_option p.established_sim_ms,
      )
      refl

-- The same JSON with arrays that can be read.
put_items : List Text → Text
unfolding put_text
put_items [] = []
put_items (v ∷ vs) = put_text v (put_items vs)

get_items : ℕ → Text → List Text
unfolding get_text
get_items zero s = []
get_items (suc n) s = let (v, rest) = get_text s in v ∷ get_items n rest

unfoldable pub array_of : List Text → Text
unfolding put_items
array_of vs = length vs ∷ put_items vs

unfoldable pub array_in : Text → Option (List Text)
unfolding get_items
array_in [] = none
array_in (n ∷ s) = some (get_items n s)

get-put_items : (vs : List Text) → get_items (length vs) (put_items vs) ≡ vs
unfolding get_items put_items get_text put_text
get-put_items [] = refl
get-put_items (v ∷ vs) =
    rw
      (
        get_items,
        put_items,
        put_text,
        get_text,
        take_all v (put_items vs),
        drop_all v (put_items vs),
      )
      (ap (◌∷◌ v) (get-put_items vs))

abbrev pub arrays : Json Text
arrays = record texts { array = array_of; as_array = array_in }

pub arrays-ReadsBack : ReadsBack arrays
arrays-ReadsBack = record { from_str-to_string = λ v. refl }

pub as_array-array_of : (vs : List Text) → array_in (array_of vs) ≡ some vs
unfolding array_in array_of
as_array-array_of vs = ap some (get-put_items vs)

abbrev pub flag_text : ServiceFlag ℕ → Text
flag_text f = 43 ∷ f.memory_pct ∷ put_int f.updated_ms (43 ∷ [])

abbrev text_flag : Text → ServiceFlag ℕ
text_flag (c ∷ pct ∷ s) = record { updated_ms = (get_int s).0; memory_pct = pct }
text_flag _ = record { updated_ms = pos 0; memory_pct = 0 }

text_flag-flag_text : (f : ServiceFlag ℕ) → text_flag (flag_text f) ≡ f
text_flag-flag_text f = rw (get-put_int f.updated_ms (43 ∷ [])) refl

abbrev pub plain : Serde ℕ
plain = record {
  flag_to_string = λ f. ok (flag_text f);
  flag_from_str = λ s. ok (text_flag s);
  profile_to_string = λ p. ok (profile_text p);
  profile_from_str = λ s. ok (text_profile s);
}

flag_text-not_blank :
    (pct : ℕ) (z : ℤ)
    → is_empty (trim (flag_text (record { updated_ms = z; memory_pct = pct }))) ≡ false
unfolding trim trim_start is_whitespace put_int
flag_text-not_blank pct (pos n) = refl
flag_text-not_blank pct (negsuc n) = refl

pub ok_eq : {A : Type 0} {a b : A} → ◌≡◌ {A = Result A} (ok a) (ok b) → a ≡ b
ok_eq h = cc

pub plain-RoundTrips : RoundTrips plain
plain-RoundTrips = record {
  flag_reads_back = λ f t e. (
    ap ok (ap text_flag (sym (ok_eq e)) ∙ text_flag-flag_text f),
    ap (λ s. is_empty (trim s)) (sym (ok_eq e)) ∙ flag_text-not_blank f.memory_pct f.updated_ms,
  );
  profile_reads_back =
      λ p t e. ap ok (ap text_profile (sym (ok_eq e)) ∙ text_profile-profile_text p);
}

-- A text of `n` letters.
pub repeat : ℕ → Text
repeat zero = []
repeat (suc n) = 97 ∷ repeat n

pub length-encode-repeat : (n : ℕ) → length (encode (repeat n)) ≡ n
unfolding repeat encode encode_char
length-encode-repeat zero = refl
length-encode-repeat (suc n) = omega (arith, length-encode-repeat n)
