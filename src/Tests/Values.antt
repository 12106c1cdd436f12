-- ===== src/Tests/Values.antt =====
-- JSON values with objects, which print to a text and are read back from it.
use stadhouder.Base.{
  ℕ, zero, suc, ◌+◌, ◌≤◌, ◌<◌, ◌≡◌, refl, ap, false, Option, none, some, [], ◌∷◌, ◌++◌, arith, Text,
  length, take, drop, length-append, take_all, drop_all, if◌then◌else◌, text_eq, Assoc, lookup,
}
use stadhouder.Base.Int.{ℤ, pos, negsuc}
use stadhouder.Json.{Json, ReadsBack, ReadsObjects}

-- Values with objects; an object is the list of its fields.
pub data Value : Type 0 where
  nothing : Value
  num : ℤ → Value
  str : Text → Value
  field : Text → Value → Value → Value

abbrev pub fields : Assoc Value → Value
fields [] = nothing
fields ((k, v) ∷ m) = field k v (fields m)

abbrev field_of : Value → Text → Option Value
field_of (field j v rest) k = if text_eq j k then some v else field_of rest k
field_of _ k = none

abbrev text_of : Value → Option Text
text_of (str s) = some s
text_of _ = none

abbrev int_of : Value → Option ℤ
int_of (num z) = some z
int_of _ = none

-- A tag, and numbers as they are; a text with its length before it.
put : Value → Text → Text
put nothing rest = 0 ∷ rest
put (num (pos n)) rest = 1 ∷ n ∷ rest
put (num (negsuc n)) rest = 2 ∷ n ∷ rest
put (str s) rest = 3 ∷ length s ∷ s ++ rest
put (field k v w) rest = 4 ∷ length k ∷ k ++ put v (put w rest)

read : ℕ → Text → Value × Text
read zero s = (nothing, s)
read (suc fuel) (suc zero ∷ n ∷ s) = (num (pos n), s)
read (suc fuel) (suc (suc zero) ∷ n ∷ s) = (num (negsuc n), s)
read (suc fuel) (suc (suc (suc zero)) ∷ n ∷ s) = (str (take n s), drop n s)
read (suc fuel) (suc (suc (suc (suc zero))) ∷ n ∷ s) =
    let (v, s') = read fuel (drop n s) in let (w, s'') = read fuel s' in (field (take n s) v w, s'')
read (suc fuel) (c ∷ s) = (nothing, s)
read (suc fuel) [] = (nothing, [])

size : Value → ℕ
size nothing = 1
size (num z) = 1
size (str s) = 1
size (field k v w) = suc (size v + size w)

size_pos : (v : Value) → 0 < size v
unfolding size
size_pos nothing = omega arith
size_pos (num z) = omega arith
size_pos (str s) = omega arith
size_pos (field k v w) = omega arith

read-put : (v : Value) (rest : Text) (fuel : ℕ) → size v ≤ fuel → read fuel (put v rest) ≡ (v, rest)
unfolding read put size
read-put v rest zero h = absurd (omega (arith, size_pos v, h))
read-put nothing rest (suc fuel) h = refl
read-put (num (pos n)) rest (suc fuel) h = refl
read-put (num (negsuc n)) rest (suc fuel) h = refl
read-put (str s) rest (suc fuel) h = rw (take_all s rest, drop_all s rest) refl
read-put (field k v w) rest (suc fuel) h =
    rw
      (
        drop_all k (put v (put w rest)),
        take_all k (put v (put w rest)),
        read-put v (put w rest) fuel (omega (arith, h)),
        read-put w rest fuel (omega (arith, h)),
      )
      refl

unfoldable pub shown : Value → Text
unfolding put
shown v = put v []

unfoldable pub read_back : Text → Option Value
unfolding read
read_back s = some (read (length s) s).0

length-put : (v : Value) (rest : Text) → size v + length rest ≤ length (put v rest)
unfolding put size
length-put nothing rest = omega arith
length-put (num (pos n)) rest = omega arith
length-put (num (negsuc n)) rest = omega arith
length-put (str s) rest = omega (arith, length-append s rest)
length-put (field k v w) rest =
    omega
      (arith, length-append k (put v (put w rest)), length-put v (put w rest), length-put w rest)

abbrev pub values : Json Value
values = record {
  null = nothing;
  bool = λ b. num (pos (if b then 1 else 0));
  int = num;
  string = str;
  array = λ vs. nothing;
  object = fields;
  get = field_of;
  is_null = λ v. false;
  as_str = text_of;
  as_i64 = int_of;
  as_array = λ v. none;
  from_str = read_back;
  to_string = shown;
}

field_of-fields : (m : Assoc Value) (k : Text) → field_of (fields m) k ≡ lookup k m
unfolding lookup
field_of-fields [] k = refl
field_of-fields ((j, v) ∷ m) k = ground (arith, field_of-fields m k)

pub values-ReadsObjects : ReadsObjects values
values-ReadsObjects = record {
  get-object = λ m k h. field_of-fields m k;
  as_str-string = λ s. refl;
}

pub values-ReadsBack : ReadsBack values
unfolding shown read_back
values-ReadsBack = record {
  from_str-to_string = λ v.
      ap (λ (x : Value × Text). some x.0)
        (read-put v [] (length (put v [])) (omega (arith, length-put v [])));
}
