-- ===== src/Base/Maps.antt =====
-- `HashMap<String, V>` as an association list. The source never relies on an order of iteration.
use mathlib.Core.Path.{◌≡◌, refl, sym, ap, ◌∙◌, subst}
use mathlib.Core.Bool.{Bool, true, false, not, ◌&&◌, ◌||◌}
use mathlib.Core.Option.{Option, none, some}
use mathlib.Core.List.{List, [], ◌∷◌}
use native.Mathlib.Omega.{arith}
use mathlib.Core.Logic.{inl, inr}
use stadhouder.Base.Tests.{Bool-cases, if◌then◌else◌, Text}
use stadhouder.Base.Lists.{All, text_eq, text_eq_refl, text_eq_iff}

some-eq {ℓ} : {A : Type ℓ} (a b : A) → some a ≡ some b → a ≡ b
some-eq a b e = cc

abbrev pub Assoc {ℓ} : Type ℓ → Type ℓ
Assoc V = List (Text × V)

module _ {ℓ} {V : Type ℓ} where
  -- m.get(k)
  unfoldable pub lookup : Text → Assoc V → Option V
  lookup k [] = none
  lookup k ((j, v) ∷ m) = if text_eq j k then some v else lookup k m

  -- m.contains_key(k)
  unfoldable pub contains_key : Text → Assoc V → Bool
  contains_key k [] = false
  contains_key k ((j, v) ∷ m) = if text_eq j k then true else contains_key k m

  -- m.insert(key, value)
  unfoldable pub insert : Text → V → Assoc V → Assoc V
  insert key value [] = (key, value) ∷ []
  insert key value ((other, w) ∷ rest) =
      if text_eq other key then (other, value) ∷ rest else (other, w) ∷ insert key value rest

  -- m.remove(k)
  unfoldable pub remove : Text → Assoc V → Assoc V
  remove k [] = []
  remove k ((j, v) ∷ m) = if text_eq j k then remove k m else (j, v) ∷ remove k m

  -- No key stands twice.
  abbrev pub IsMap : Assoc V → Type 0
  IsMap [] = Unit
  IsMap ((k, v) ∷ m) = (contains_key k m ≡ false) × IsMap m

  pub lookup-insert :
      (k j : Text) (v : V) (m : Assoc V)
      → lookup j (insert k v m) ≡ (if text_eq k j then some v else lookup j m)
  unfolding lookup insert
  lookup-insert k j v [] = refl
  lookup-insert k j v ((i, w) ∷ m) =
      ground (arith, text_eq_iff k j, text_eq_iff i k, text_eq_iff i j, lookup-insert k j v m)

  pub lookup-remove :
      (k j : Text) (m : Assoc V)
      → lookup j (remove k m) ≡ (if text_eq k j then none else lookup j m)
  unfolding lookup remove
  lookup-remove k j [] = ground arith
  lookup-remove k j ((i, v) ∷ m) =
      ground (arith, lookup-remove k j m, text_eq_iff i k, text_eq_iff i j, text_eq_iff k j)

  abbrev pub is_some : Option V → Bool
  is_some none = false
  is_some (some v) = true

  pub contains_key-lookup : (k : Text) (m : Assoc V) → contains_key k m ≡ is_some (lookup k m)
  unfolding lookup contains_key
  contains_key-lookup k [] = refl
  contains_key-lookup k ((i, v) ∷ m) = ground (arith, contains_key-lookup k m)

  pub contains_key-insert :
      (k j : Text) (v : V) (m : Assoc V)
      → contains_key j (insert k v m) ≡ (text_eq k j || contains_key j m)
  unfolding contains_key insert
  contains_key-insert k j v [] = ground arith
  contains_key-insert k j v ((i, w) ∷ m) =
      ground (arith, text_eq_iff k j, text_eq_iff i k, text_eq_iff i j, contains_key-insert k j v m)

  pub contains_key-remove :
      (k j : Text) (m : Assoc V)
      → contains_key j (remove k m) ≡ (contains_key j m && not (text_eq k j))
  unfolding contains_key remove
  contains_key-remove k j [] = refl
  contains_key-remove k j ((i, v) ∷ m) =
      ground (arith, contains_key-remove k j m, text_eq_iff i k, text_eq_iff i j, text_eq_iff k j)

  pub IsMap-insert : (k : Text) (v : V) (m : Assoc V) → IsMap m → IsMap (insert k v m)
  unfolding insert contains_key
  IsMap-insert k v [] h = (refl, tt)
  IsMap-insert k v ((i, w) ∷ m) h = elim (Bool-cases (text_eq i k)) [
    | inl same ↦ rw (insert, same) h
    | inr other ↦
        rw (insert, other)
          (
            ground
                (arith, contains_key-insert k i v m, text_eq_iff i k, text_eq_iff k i, h.0, other),
            IsMap-insert k v m h.1,
          )
  ]

  pub IsMap-remove : (k : Text) (m : Assoc V) → IsMap m → IsMap (remove k m)
  unfolding remove contains_key
  IsMap-remove k [] h = tt
  IsMap-remove k ((i, w) ∷ m) h = elim (Bool-cases (text_eq i k)) [
    | inl same ↦ rw (remove, same) (IsMap-remove k m h.1)
    | inr other ↦
        rw (remove, other) (ground (arith, contains_key-remove k i m, h.0), IsMap-remove k m h.1)
  ]

  module _ {κ} (P : V → Type κ) where
    -- Every value satisfies `P`.
    abbrev pub Values : Assoc V → Type κ
    Values m = All (λ e. P e.1) m

    pub Values-insert : (k : Text) (v : V) (m : Assoc V) → P v → Values m → Values (insert k v m)
    unfolding insert
    Values-insert k v [] p h = (p, tt)
    Values-insert k v ((i, w) ∷ m) p h = elim (Bool-cases (text_eq i k)) [
      | inl same ↦ rw (insert, same) (p, h.1)
      | inr other ↦ rw (insert, other) (h.0, Values-insert k v m p h.1)
    ]

    pub Values-remove : (k : Text) (m : Assoc V) → Values m → Values (remove k m)
    unfolding remove
    Values-remove k [] h = tt
    Values-remove k ((i, w) ∷ m) h = elim (Bool-cases (text_eq i k)) [
      | inl same ↦ rw (remove, same) (Values-remove k m h.1)
      | inr other ↦ rw (remove, other) (h.0, Values-remove k m h.1)
    ]

    pub Values-lookup : (k : Text) (m : Assoc V) (v : V) → Values m → lookup k m ≡ some v → P v
    unfolding lookup
    Values-lookup k [] v h e = cc
    Values-lookup k ((i, w) ∷ m) v h e = elim (Bool-cases (text_eq i k)) [
      | inl same ↦ subst P (some-eq w v (rw same at e)) h.0
      | inr other ↦ Values-lookup k m v h.1 (rw other at e)
    ]

    -- A property of all that can be looked up.
    pub lookup-Values :
        (m : Assoc V) → IsMap m → ((k : Text) (v : V) → lookup k m ≡ some v → P v) → Values m
    unfolding lookup
    lookup-Values [] u h = tt
    lookup-Values ((i, w) ∷ m) u h = (
      h i w (rw (text_eq_refl i) refl),
      lookup-Values m u.1 (λ k v e. elim (Bool-cases (text_eq i k)) [
        | inl same ↦ cc (
            sym u.0
            ∙ contains_key-lookup i m
            ∙ ap (λ x. is_some (lookup x m)) ((text_eq_iff i k).0 same)
            ∙ ap is_some e)
        | inr other ↦ h k v (rw (lookup, other) e)
      ]),
    )
