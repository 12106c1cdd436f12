-- ===== src/Runtime/Scan/Paths.antt =====
-- Which profile the scan of the directory reads for a connection.
use mathlib.Core.List.{foldl}
use stadhouder.Base.{
  ◌≡◌, refl, ap, ◌∙◌, inl, inr, true, some, List, [], ◌∷◌, arith, Text, All, ok, Bool-cases,
  Option-cases, >>=-eq-ok, text_eq, text_eq_refl, text_eq_iff, Assoc, lookup, contains_key,
  lookup-insert, is_some, contains_key-lookup, holds,
}
use stadhouder.Disk
use stadhouder.Disk.{Disk, names_in}
use stadhouder.State.{Serde, ConnectionProfile, load, profile_name}
use stadhouder.Runtime.{connection_id_from_filename}
use stadhouder.Runtime.Scan.{put_id, put_path, ids_on_disk}

-- No other file of the directory has a name that stands for the same connection.
abbrev pub Unshared : Text → List Text → Type 0
Unshared id paths = All (λ q. connection_id_from_filename q ≡ some id → q ≡ profile_name id) paths

lookup-put_path :
    (id : Text) (paths : Assoc Text) (q : Text)
    → (connection_id_from_filename q ≡ some id → q ≡ profile_name id)
    → lookup id paths ≡ some (profile_name id)
    → lookup id (put_path paths q) ≡ some (profile_name id)
unfolding put_path put_id
lookup-put_path id paths q own h = elim (Option-cases (connection_id_from_filename q)) [
  | inl e ↦ rw (put_path, e) h
  | inr (k, e) ↦ elim (Bool-cases (text_eq k id)) [
    | inl same ↦
        rw (put_path, e, lookup-insert k id q paths, same)
          (ap some (own (e ∙ ap some ((text_eq_iff k id).0 same))))
    | inr other ↦ rw (put_path, e, lookup-insert k id q paths, other) h
  ]
]

lookup-foldl :
    (id : Text) (paths : List Text) (acc : Assoc Text)
    → Unshared id paths
    → lookup id acc ≡ some (profile_name id)
    → lookup id (foldl put_path acc paths) ≡ some (profile_name id)
lookup-foldl id [] acc own h = h
lookup-foldl id (q ∷ paths) acc own h =
    lookup-foldl id paths (put_path acc q) own.1 (lookup-put_path id acc q own.0 h)

put_path-own :
    (id : Text) (acc : Assoc Text)
    → connection_id_from_filename (profile_name id) ≡ some id
    → lookup id (put_path acc (profile_name id)) ≡ some (profile_name id)
unfolding put_path put_id
put_path-own id acc e =
    rw (put_path, e, lookup-insert id id (profile_name id) acc, text_eq_refl id) refl

lookup-foldl_held :
    (id : Text) (paths : List Text) (acc : Assoc Text)
    → connection_id_from_filename (profile_name id) ≡ some id
    → Unshared id paths
    → holds paths (profile_name id) ≡ true
    → lookup id (foldl put_path acc paths) ≡ some (profile_name id)
lookup-foldl_held id [] acc e own h = cc
lookup-foldl_held id (q ∷ paths) acc e own h = elim (Bool-cases (text_eq q (profile_name id))) [
  | inl same ↦ lookup-foldl id paths (put_path acc q) own.1 (
      ap (λ t. lookup id (put_path acc t)) ((text_eq_iff q (profile_name id)).0 same)
      ∙ put_path-own id acc e)
  | inr other ↦ lookup-foldl_held id paths (put_path acc q) e own.1 (rw other at h)
]

-- The id is found with the file of its name.
pub lookup-ids_on_disk :
    (id : Text) (paths : List Text)
    → connection_id_from_filename (profile_name id) ≡ some id
    → Unshared id paths
    → holds paths (profile_name id) ≡ true
    → lookup id (ids_on_disk paths) ≡ some (profile_name id)
unfolding ids_on_disk
lookup-ids_on_disk id paths e own h = lookup-foldl_held id paths [] e own h

pub load-exists :
    {F : Type 0} (s : Serde F) (name : Text) (d : Disk) (p : ConnectionProfile)
    → load s name d ≡ ok p
    → contains_key name d.files ≡ true
unfolding load Disk.read_to_string
load-exists s name d p h = elim (Option-cases (lookup name d.files)) [
  | inl e ↦
      let (contents, readable, _) = >>=-eq-ok (Disk.read_to_string name d) s.profile_from_str h in
      ground (arith, e, readable)
  | inr (t, e) ↦ contains_key-lookup name d.files ∙ ap is_some e
]
