-- ===== src/Runtime/Scan/New.antt =====
-- Whom a scan reports as new: connections that have a profile in the directory.
use mathlib.Core.List.{foldl}
use stadhouder.Base.{
  ◌≡◌, refl, ap, ◌∙◌, inl, inr, ◌⊎◌, true, ◌&&◌, ◌||◌, some, List, [], ◌∷◌, arith, Text, holds,
  holds-append, holds-filter, Result, ok, err, Bool-cases, Option-cases, Result-cases, text_eq,
  text_eq_iff, text_eq_refl, Assoc, contains_key, contains_key-insert,
}
use stadhouder.Base.Int.{ℤ}
use stadhouder.Disk.{Disk, exists, names_in}
use stadhouder.Disk.Laws.{holds-names_in}
use stadhouder.State.{Serde, ConnectionProfile, load, is_profile_name, connection_profile_paths}
use stadhouder.Pipes.Server.{PipeNames, Fifos, InboundServerPipe, OutboundServerPipe}
use stadhouder.Runtime.{Loop, connection_id_from_filename, is_due, scan_interval_ms}
use stadhouder.Runtime.Scan.{
  put_id, put_path, ids_on_disk, install, serve, pick_up, pick_up_all, scan, scan_now,
}
use stadhouder.Runtime.Registry.Steps.{new_ids, new_ids-append}

-- A profile's file that stands for the connection.
pub record Profiled (d : Disk) (id : Text) : Type 0 where
  pub path : Text
  pub names_it : connection_id_from_filename path ≡ some id
  pub profile : is_profile_name path ≡ true
  pub there : exists path d ≡ true

abbrev Named : Text → List Text → Type 0
Named id paths = (q : Text) × (holds paths q ≡ true) × (connection_id_from_filename q ≡ some id)

contains_key-put_path_only :
    (id : Text) (m : Assoc Text) (q : Text)
    → contains_key id (put_path m q) ≡ true
    → (contains_key id m ≡ true) ⊎ (connection_id_from_filename q ≡ some id)
unfolding put_path put_id
contains_key-put_path_only id m q h = elim (Option-cases (connection_id_from_filename q)) [
  | inl e ↦ inl (rw (put_path, e) at h)
  | inr (k, e) ↦ elim (Bool-cases (text_eq k id)) [
    | inl same ↦ inr (e ∙ ap some ((text_eq_iff k id).0 same))
    | inr other ↦ inl (rw (put_path, e, contains_key-insert k id q m, other) at h)
  ]
]

further : (id q : Text) (paths : List Text) → Named id paths → Named id (q ∷ paths)
further id q paths (p, held, e) = (p, ground (arith, held), e)

contains_key-foldl_only :
    (id : Text) (paths : List Text) (m : Assoc Text)
    → contains_key id (foldl put_path m paths) ≡ true
    → (contains_key id m ≡ true) ⊎ Named id paths
contains_key-foldl_only id [] m h = inl h
contains_key-foldl_only id (q ∷ paths) m h =
    elim (contains_key-foldl_only id paths (put_path m q) h) [
      | inr later ↦ inr (further id q paths later)
      | inl now ↦ elim (contains_key-put_path_only id m q now) [
        | inl before ↦ inl before
        | inr e ↦ inr (q, rw (text_eq_refl q) refl, e)
      ]
    ]

ids_on_disk-Profiled :
    (id : Text) (d : Disk)
    → contains_key id (ids_on_disk (connection_profile_paths d)) ≡ true
    → Profiled d id
unfolding ids_on_disk connection_profile_paths contains_key exists
ids_on_disk-Profiled id d h = elim (contains_key-foldl_only id (connection_profile_paths d) [] h) [
  | inl never ↦ cc
  | inr (q, held, e) ↦
      let both : (is_profile_name q && contains_key q d.files) ≡ true =
        rw (← holds-names_in q d.files, ← holds-filter is_profile_name (names_in d.files) q) held in
      record {
        path = q;
        names_it = e;
        profile = ground (arith, both);
        there = ground (arith, both);
      }
]

module _ {V F S : Type 0} where
  install-new :
      (now : ℤ) (k : Text) (p : ConnectionProfile) (names : PipeNames) (fifos : Fifos)
      (r : Result (InboundServerPipe × OutboundServerPipe)) (l : Loop V F S) (id : Text)
      → holds (new_ids (install now k p names fifos r l).0) id ≡ true
      → text_eq k id ≡ true
  unfolding install
  install-new now k p names fifos (err e) l id h = cc
  install-new now k p names fifos (ok (i, o)) l id h = ground (arith, h)

  module _ (s : Serde F) where
    pick_up-new :
        (now : ℤ) (k path : Text) (l : Loop V F S) (id : Text)
        → holds (new_ids (pick_up s now k path l).0) id ≡ true
        → text_eq k id ≡ true
    unfolding pick_up serve
    pick_up-new now k path l id h = elim (Bool-cases (contains_key k l.connections)) [
      | inl old ↦ cc (rw (pick_up, old) at h)
      | inr new ↦ elim (Result-cases (load s path l.disk)) [
        | inl (p, e) ↦ install-new now k p _ _ _ l id (rw (pick_up, new, e, serve) at h)
        | inr (m, e) ↦ cc (rw (pick_up, new, e) at h)
      ]
    ]

    pick_up_all-new :
        (now : ℤ) (m : Assoc Text) (l : Loop V F S) (id : Text)
        → holds (new_ids (pick_up_all s now m l).0) id ≡ true
        → contains_key id m ≡ true
    unfolding pick_up_all contains_key
    pick_up_all-new now [] l id h = cc
    pick_up_all-new now ((k, path) ∷ m) l id h =
        let (ns, l') = pick_up s now k path l in
        let ms = (pick_up_all s now m l').0 in
        let split : (holds (new_ids ns) id || holds (new_ids ms) id) ≡ true =
          rw (← holds-append (new_ids ns) (new_ids ms) id, ← new_ids-append ns ms) h in
        elim (Bool-cases (holds (new_ids ns) id)) [
          | inl first ↦ rw (pick_up-new now k path l id first) refl
          | inr later ↦ ground (arith, split, later, pick_up_all-new now m l' id)
        ]

    -- A connection that a scan reports as new has a profile in the directory.
    pub scan-new :
        (now : ℤ) (l : Loop V F S) (id : Text)
        → holds (new_ids (scan s now l).0) id ≡ true
        → Profiled l.disk id
    unfolding scan scan_now
    scan-new now l id h = elim (Bool-cases (is_due now l.last_scan_ms scan_interval_ms)) [
      | inr early ↦ cc (rw (scan, early) at h)
      | inl due ↦ ids_on_disk-Profiled id l.disk (
          pick_up_all-new now (ids_on_disk (connection_profile_paths l.disk))
            (record l { last_scan_ms = now }) id (rw (scan, due) at h))
    ]
