-- ===== src/Runtime/Scan/Gone.antt =====
-- A connection whose profile is gone from the directory is closed by the next scan, and reported.
use mathlib.Core.List.{foldl, Mem, mem-cons_self, mem-cons_of_mem}
use stadhouder.Base.{
  ◌≡◌, ◌≢◌, refl, ap, ◌∙◌, true, false, not, some, List, [], ◌∷◌, map, inl, inr, Text, All, arith,
  contains_key, contains_key-insert, holds, holds-filter, Assoc, Bool-cases, Option-cases, text_eq,
  text_eq_iff, text_eq_refl,
}
use stadhouder.Base.Int.{ℤ}
use stadhouder.State.{Serde, profile_name, connection_profile_paths}
use stadhouder.Service.{client_disconnected}
use stadhouder.Runtime.{Loop, is_due, scan_interval_ms, connection_id_from_filename}
use stadhouder.Runtime.Scan.{
  scan, scan_now, ids_on_disk, pick_up_all, absent_from, keys, put_path, put_id,
}
use stadhouder.Runtime.Scan.Paths.{Unshared}
use stadhouder.Runtime.Registry.Keep.{closed_for, drop_gone-reasons}
use stadhouder.Runtime.Registry.Steps.{pick_up_all-live, drop_gone-live, closed_ids}

-- No file's name stands for the connection.
abbrev pub Unnamed : Text → List Text → Type 0
Unnamed id paths = All (λ q. connection_id_from_filename q ≢ some id) paths

contains_key-put_path :
    (id : Text) (m : Assoc Text) (q : Text)
    → connection_id_from_filename q ≢ some id
    → contains_key id m ≡ false
    → contains_key id (put_path m q) ≡ false
unfolding put_path put_id
contains_key-put_path id m q other h = elim (Option-cases (connection_id_from_filename q)) [
  | inl e ↦ rw (put_path, e) h
  | inr (k, e) ↦ elim (Bool-cases (text_eq k id)) [
    | inl same ↦ absurd (other (e ∙ ap some ((text_eq_iff k id).0 same)))
    | inr new ↦ rw (put_path, e, contains_key-insert k id q m, new) h
  ]
]

contains_key-foldl :
    (id : Text) (paths : List Text) (m : Assoc Text)
    → Unnamed id paths
    → contains_key id m ≡ false
    → contains_key id (foldl put_path m paths) ≡ false
contains_key-foldl id [] m u h = h
contains_key-foldl id (q ∷ paths) m u h =
    contains_key-foldl id paths (put_path m q) u.1 (contains_key-put_path id m q u.0 h)

pub contains_key-ids_on_disk :
    (id : Text) (paths : List Text) → Unnamed id paths → contains_key id (ids_on_disk paths) ≡ false
unfolding ids_on_disk contains_key
contains_key-ids_on_disk id paths u = contains_key-foldl id paths [] u refl

pub Unshared-Unnamed :
    (id : Text) (paths : List Text)
    → Unshared id paths
    → holds paths (profile_name id) ≡ false
    → Unnamed id paths
Unshared-Unnamed id [] u h = tt
Unshared-Unnamed id (q ∷ paths) u h = (
  λ e. cc (rw (u.0 e, text_eq_refl (profile_name id)) at h),
  Unshared-Unnamed id paths u.1 (ground (arith, h)),
)

holds-keys :
    {A : Type 0} (id : Text) (m : Assoc A) → contains_key id m ≡ true → holds (keys m) id ≡ true
unfolding contains_key
holds-keys id [] h = cc
holds-keys id ((k, a) ∷ m) h = ground (arith, h, holds-keys id m)

Mem-closed_for :
    (id : Text) (ids : List Text)
    → holds ids id ≡ true
    → Mem (closed_for client_disconnected id) (map (closed_for client_disconnected) ids)
Mem-closed_for id [] h = cc
Mem-closed_for id (i ∷ ids) h = elim (Bool-cases (text_eq i id)) [
  | inl same ↦ rw ((text_eq_iff i id).0 same) mem-cons_self
  | inr other ↦
      mem-cons_of_mem (closed_for client_disconnected i) (Mem-closed_for id ids (rw other at h))
]

pub closed_ids-closed_for :
    (ids : List Text) → closed_ids (map (closed_for client_disconnected) ids) ≡ ids
closed_ids-closed_for [] = refl
closed_ids-closed_for (i ∷ ids) = ap (◌∷◌ i) (closed_ids-closed_for ids)

module _ {V F S : Type 0} (s : Serde F) where
  scan_now-gone :
      (now : ℤ) (id : Text) (l : Loop V F S)
      → contains_key id (ids_on_disk (connection_profile_paths l.disk)) ≡ false
      → contains_key id l.connections ≡ true
      → Mem (closed_for client_disconnected id) (scan_now s now l).1
        × (contains_key id (scan_now s now l).2.connections ≡ false)
  unfolding scan_now absent_from
  scan_now-gone now id l absent there =
      let on_disk = ids_on_disk (connection_profile_paths l.disk) in
      let seen : Loop V F S = record l { last_scan_ms = now } in
      let l' = (pick_up_all s now on_disk seen).1 in
      let gone = absent_from on_disk l' in
      let still : contains_key id l'.connections ≡ true =
        ground (arith, pick_up_all-live s now on_disk seen id, there) in
      let named : holds gone id ≡ true =
        rw
          (
            holds-filter (λ i. not (contains_key i on_disk)) (keys l'.connections) id,
            absent,
            holds-keys id l'.connections still,
          )
          refl in
      (
        rw (drop_gone-reasons gone l') (Mem-closed_for id gone named),
        drop_gone-live gone l' id
            ∙ rw (drop_gone-reasons gone l', closed_ids-closed_for gone, named, still) refl,
      )

  -- A connection for which no profile's name stands is closed by a scan that is due.
  pub scan-gone :
      (now : ℤ) (id : Text) (l : Loop V F S)
      → contains_key id (ids_on_disk (connection_profile_paths l.disk)) ≡ false
      → contains_key id l.connections ≡ true
      → is_due now l.last_scan_ms scan_interval_ms ≡ true
      → Mem (closed_for client_disconnected id) (scan s now l).1
        × (contains_key id (scan s now l).2.connections ≡ false)
  unfolding scan
  scan-gone now id l absent there due = rw (scan, due) (scan_now-gone now id l absent there)
