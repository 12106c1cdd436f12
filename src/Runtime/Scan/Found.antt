-- ===== src/Runtime/Scan/Found.antt =====
-- A connection that has a profile is opened by the next scan.
use stadhouder.Base.{
  ◌≡◌, refl, ap, ◌∙◌, inl, inr, true, false, not, ◌||◌, some, List, [], ◌∷◌, arith, Text, filter,
  any, Result, ok, err, Bool-cases, Result-cases, text_eq, text_eq_refl, text_eq_iff, Assoc, lookup,
  contains_key, holds, holds-filter, contains_key-insert, contains_key-lookup,
}
use stadhouder.Base.Int.{ℤ}
use stadhouder.Disk.{names_in}
use stadhouder.Disk.Laws.{holds-names_in}
use stadhouder.State.{
  Serde, ConnectionProfile, load, connection_profile_paths, is_profile_name, profile_name,
}
use stadhouder.Pipes.Server.{
  PipeNames, Fifos, InboundServerPipe, OutboundServerPipe, create_serving_pipes, create_inbound,
  create_outbound, make_pipes, mkfifo, exists, remove_file,
}
use stadhouder.Runtime.{Loop, connection_id_from_filename, is_due, scan_interval_ms}
use stadhouder.Runtime.Scan.{
  ids_on_disk, open_pipes, install, serve, pick_up, pick_up_all, scan, scan_now, absent_from, keys,
}
use stadhouder.Runtime.Scan.Paths.{Unshared, lookup-ids_on_disk, load-exists}
use stadhouder.State.Profiles.{profile_name-is_profile_name}
use stadhouder.Runtime.Scan.Gone.{closed_ids-closed_for}
use stadhouder.Runtime.Registry.Keep.{drop_gone-reasons}
use stadhouder.Runtime.Registry.Steps.{new_ids, pick_up_all-live, drop_gone-live}

-- The system makes FIFOs of these names, which differ.
pub record CanOpen (p : ConnectionProfile) (fifos : Fifos) : Type 0 where
  pub differ : text_eq p.server_to_client_pipe p.client_to_server_pipe ≡ false
  pub up : any (text_eq p.client_to_server_pipe) fifos.refused ≡ false
  pub down : any (text_eq p.server_to_client_pipe) fifos.refused ≡ false

abbrev names_of : ConnectionProfile → PipeNames
names_of p = record {
  client_to_server = p.client_to_server_pipe;
  server_to_client = p.server_to_client_pipe;
}

any-removed :
    (name : Text) (ns : List Text)
    → any (text_eq name) (filter (λ n. not (text_eq name n)) ns) ≡ false
any-removed name [] = refl
any-removed name (n ∷ ns) = ground (arith, any-removed name ns)

any-kept :
    (name other : Text) (ns : List Text)
    → text_eq other name ≡ false
    → any (text_eq name) ns ≡ true
    → any (text_eq name) (filter (λ n. not (text_eq other n)) ns) ≡ true
any-kept name other [] h k = cc
any-kept name other (n ∷ ns) h k =
    ground (arith, any-kept name other ns h, text_eq_iff name n, text_eq_iff other n, h)

-- The FIFOs once one of a name has been replaced.
abbrev renewed : Text → Fifos → Fifos
renewed name d = record d { present = name ∷ filter (λ n. not (text_eq name n)) d.present }

mkfifo-renewed :
    (name : Text) (d : Fifos)
    → any (text_eq name) d.refused ≡ false
    → mkfifo name (remove_file name d) ≡ (ok tt, renewed name d)
unfolding mkfifo remove_file exists
mkfifo-renewed name d h = rw (h, any-removed name d.present) refl

make_pipes-cons :
    (name : Text) (names : List Text) (d d' : Fifos)
    → mkfifo name (remove_file name d) ≡ (ok tt, d')
    → make_pipes (name ∷ names) d ≡ make_pipes names d'
unfolding make_pipes
make_pipes-cons name names d d' e =
    rw (make_pipes, ap (λ (x : Result (Unit {0}) × Fifos). x.0) e)
      (ap (λ (x : Result (Unit {0}) × Fifos). make_pipes names x.1) e)

made :
    (up down : Text) (d : Fifos)
    → any (text_eq up) d.refused ≡ false
    → any (text_eq down) d.refused ≡ false
    → make_pipes (up ∷ down ∷ []) d ≡ (ok tt, renewed down (renewed up d))
unfolding make_pipes
made up down d h k =
    make_pipes-cons up (down ∷ []) d (renewed up d) (mkfifo-renewed up d h)
    ∙ make_pipes-cons down [] (renewed up d) (renewed down (renewed up d))
        (mkfifo-renewed down (renewed up d) k)

up_there :
    (up down : Text) (d : Fifos)
    → text_eq down up ≡ false
    → exists up (renewed down (renewed up d)) ≡ true
unfolding exists
up_there up down d h =
    ground (arith, any-kept up down (renewed up d).present h (ground (arith, text_eq_refl up)))

open_pipes-CanOpen :
    (p : ConnectionProfile) (fifos : Fifos)
    → CanOpen p fifos
    → (i : InboundServerPipe) × (o : OutboundServerPipe) × (open_pipes
          (names_of p)
          (create_serving_pipes (names_of p) fifos)
        ≡ ok (i, o))
unfolding open_pipes create_serving_pipes create_inbound create_outbound
open_pipes-CanOpen p fifos h =
    let up = p.client_to_server_pipe in
    let down = p.server_to_client_pipe in
    (
      record { path = up; buffer = [] },
      record { path = down },
      rw (made up down fifos h.up h.down, up_there up down fifos h.differ) refl,
    )

mkfifo-refused : (name : Text) (d : Fifos) → (mkfifo name d).1.refused ≡ d.refused
unfolding mkfifo
mkfifo-refused name d = ground arith

make_pipes-refused : (names : List Text) (d : Fifos) → (make_pipes names d).1.refused ≡ d.refused
unfolding make_pipes remove_file
make_pipes-refused [] d = refl
make_pipes-refused (n ∷ ns) d = elim (Result-cases (mkfifo n (remove_file n d)).0) [
  | inl (t, e) ↦
      rw (make_pipes, e)
        (make_pipes-refused ns (mkfifo n (remove_file n d)).1 ∙ mkfifo-refused n (remove_file n d))
  | inr (m, e) ↦ rw (make_pipes, e) (mkfifo-refused n (remove_file n d))
]

CanOpen-stays :
    (p : ConnectionProfile) (d d' : Fifos) → d'.refused ≡ d.refused → CanOpen p d → CanOpen p d'
CanOpen-stays p d d' e h = record { differ = h.differ; up = rw e h.up; down = rw e h.down }

some-eq : {A : Type 0} (a b : A) → some a ≡ some b → a ≡ b
some-eq a b e = cc

module _ {V F S : Type 0} (s : Serde F) where
  -- What the scan of one profile leaves as it is.
  record Stays (l l' : Loop V F S) : Type 0 where
    disk : l'.disk ≡ l.disk
    refused : l'.fifos.refused ≡ l.fifos.refused

  install-Stays :
      (now : ℤ) (id : Text) (p : ConnectionProfile) (names : PipeNames) (fifos : Fifos)
      (r : Result (InboundServerPipe × OutboundServerPipe)) (l : Loop V F S)
      → fifos.refused ≡ l.fifos.refused
      → Stays l (install now id p names fifos r l).1
  unfolding install
  install-Stays now id p names fifos (err e) l h = record { disk = refl; refused = h }
  install-Stays now id p names fifos (ok (i, o)) l h = record { disk = refl; refused = h }

  pick_up-Stays : (now : ℤ) (id path : Text) (l : Loop V F S) → Stays l (pick_up s now id path l).1
  unfolding pick_up serve create_serving_pipes
  pick_up-Stays now id path l = elim (Bool-cases (contains_key id l.connections)) [
    | inl old ↦ rw (pick_up, old) (record { disk = refl; refused = refl })
    | inr new ↦ elim (Result-cases (load s path l.disk)) [
      | inl (p, e) ↦
          let created = create_serving_pipes (names_of p) l.fifos in
          rw (pick_up, new, e)
            (install-Stays now id p (names_of p) created.1 (open_pipes (names_of p) created) l
              (make_pipes-refused (p.client_to_server_pipe ∷ p.server_to_client_pipe ∷ []) l.fifos))
      | inr (m, e) ↦ rw (pick_up, new, e) (record { disk = refl; refused = refl })
    ]
  ]

  pick_up-found :
      (now : ℤ) (id path : Text) (p : ConnectionProfile) (l : Loop V F S)
      → load s path l.disk ≡ ok p
      → CanOpen p l.fifos
      → contains_key id (pick_up s now id path l).1.connections ≡ true
  unfolding pick_up serve install
  pick_up-found now id path p l e h = elim (Bool-cases (contains_key id l.connections)) [
    | inl old ↦ rw (pick_up, old) old
    | inr new ↦
        let (i, o, opened) = open_pipes-CanOpen p l.fifos h in
        rw (pick_up, new, e, opened, install)
          (rw contains_key-insert (ground (arith, text_eq_refl id)))
  ]

  pick_up_all-found :
      (now : ℤ) (id path : Text) (p : ConnectionProfile) (m : Assoc Text) (l : Loop V F S)
      → lookup id m ≡ some path
      → load s path l.disk ≡ ok p
      → CanOpen p l.fifos
      → contains_key id (pick_up_all s now m l).1.connections ≡ true
  unfolding pick_up_all lookup
  pick_up_all-found now id path p [] l at e h = cc
  pick_up_all-found now id path p ((k, q) ∷ m) l at e h = elim (Bool-cases (text_eq k id)) [
    | inl same ↦
        let here = pick_up-found now id path p l e h in
        let l' = (pick_up s now k q l).1 in
        let name = (text_eq_iff k id).0 same in
        let file = some-eq q path (rw same at at) in
        pick_up_all-live s now m l' id
        ∙ ap (λ b. b || holds (new_ids (pick_up_all s now m l').0) id)
            (ap (λ (x : Text × Text). contains_key id (pick_up s now x.0 x.1 l).1.connections)
                (ap (λ n. (n, q)) name ∙ ap (λ t. (id, t)) file)
              ∙ here)
    | inr other ↦
        let l' = (pick_up s now k q l).1 in
        let stays = pick_up-Stays now k q l in
        pick_up_all-found now id path p m l' (rw other at at) (ap (load s path) stays.disk ∙ e)
          (CanOpen-stays p l.fifos l'.fifos stays.refused h)
  ]

  scan_now-found :
      (now : ℤ) (id : Text) (p : ConnectionProfile) (l : Loop V F S)
      → connection_id_from_filename (profile_name id) ≡ some id
      → Unshared id (connection_profile_paths l.disk)
      → load s (profile_name id) l.disk ≡ ok p
      → CanOpen p l.fifos
      → contains_key id l.connections ≡ false
      → (holds (new_ids (scan_now s now l).0) id ≡ true)
        × (contains_key id (scan_now s now l).2.connections ≡ true)
  unfolding scan_now connection_profile_paths absent_from
  scan_now-found now id p l named own e h absent =
      let paths = connection_profile_paths l.disk in
      let on_disk = ids_on_disk paths in
      let held : holds paths (profile_name id) ≡ true =
        rw
          (
            holds-filter is_profile_name (names_in l.disk.files) (profile_name id),
            holds-names_in (profile_name id) l.disk.files,
            profile_name-is_profile_name id,
            load-exists s (profile_name id) l.disk p e,
          )
          refl in
      let at = lookup-ids_on_disk id paths named own held in
      let l' : Loop V F S = record l { last_scan_ms = now } in
      let l'' = (pick_up_all s now on_disk l').1 in
      let open_ = pick_up_all-found now id (profile_name id) p on_disk l' at e h in
      let gone = absent_from on_disk l'' in
      let stays : holds gone id ≡ false =
        rw
          (
            holds-filter (λ i. not (contains_key i on_disk)) (keys l''.connections) id,
            contains_key-lookup id on_disk,
            at,
          )
          refl in
      (
        ground (arith, open_, pick_up_all-live s now on_disk l' id, absent),
        drop_gone-live gone l'' id
            ∙ rw (drop_gone-reasons gone l'', closed_ids-closed_for gone, stays, open_) refl,
      )

  -- A connection that is not yet open, whose profile loads and stands under the one name for its id, is
  -- reported as new by the next scan, which leaves it in the registry, if the system makes its FIFOs.
  pub scan-found :
      (now : ℤ) (id : Text) (p : ConnectionProfile) (l : Loop V F S)
      → connection_id_from_filename (profile_name id) ≡ some id
      → Unshared id (connection_profile_paths l.disk)
      → load s (profile_name id) l.disk ≡ ok p
      → CanOpen p l.fifos
      → contains_key id l.connections ≡ false
      → is_due now l.last_scan_ms scan_interval_ms ≡ true
      → (holds (new_ids (scan s now l).0) id ≡ true)
        × (contains_key id (scan s now l).2.connections ≡ true)
  unfolding scan
  scan-found now id p l named own e h absent due =
      rw (scan, due) (scan_now-found now id p l named own e h absent)
