-- ===== src/Runtime/Start/Purge.antt =====
-- The profiles of a run before: what a starting instance leaves of them, and whom it greets first.
use stadhouder.Base.{
  ℕ, ◌≡◌, refl, ap, sym, ◌∙◌, inl, inr, true, false, not, ◌&&◌, Option, List, [], ◌∷◌, arith, Text,
  holds, holds-filter, Result, ok, err, text_eq, text_eq_iff, text_eq_refl, Bool-cases,
  Result-cases, contains_key, contains_key-insert, contains_key-remove,
}
use stadhouder.Base.Int.{ℤ}
use stadhouder.Disk.{Disk, is_denied, exists, names_in, remove_file, write}
use stadhouder.State.{
  Serde, flag_name, is_profile_name, connection_profile_paths, read_service_flag,
  write_service_flag,
}
use stadhouder.Json.{Json}
use stadhouder.Float.{Float}
use stadhouder.Pipes.Server.{Fifos}
use stadhouder.Service.{Engine}
use stadhouder.Runtime.{Loop, memory_pct, is_due, flag_update_interval_ms}
use stadhouder.Disk.Laws.{holds-names_in}
use stadhouder.Runtime.Flag.{is_profile_name-other}
use stadhouder.Runtime.Round.{Os, clamp, refresh_flag, flag_written, collect}
use stadhouder.Runtime.Registry.Steps.{new_ids}
use stadhouder.Runtime.Scan.New.{Profiled, scan-new}
use stadhouder.Runtime.Start.{
  Start, live, start, with_flag, take_over, took_over, another_lives, purge,
}

remove_file-contains :
    (n name : Text) (d : Disk)
    → is_denied name d ≡ false
    → contains_key name (remove_file n d).1.files
      ≡ (contains_key name d.files && not (text_eq n name))
unfolding remove_file
remove_file-contains n name d h = elim (Bool-cases (text_eq n name)) [
  | inl same ↦
      rw ((text_eq_iff n name).0 same)
        (ground (arith, h, contains_key-remove name name d.files, text_eq_refl name))
  | inr other ↦ rw other (ground (arith, other, contains_key-remove n name d.files))
]

remove_file-is_denied :
    (n name : Text) (d : Disk) → is_denied name (remove_file n d).1 ≡ is_denied name d
unfolding remove_file is_denied
remove_file-is_denied n name d = ground arith

purge-contains :
    (names : List Text) (d : Disk) (name : Text)
    → is_denied name d ≡ false
    → contains_key name (purge names d).files
      ≡ (contains_key name d.files && not (holds names name))
unfolding purge
purge-contains [] d name h = ground arith
purge-contains (n ∷ names) d name h =
    purge-contains names (remove_file n d).1 name (remove_file-is_denied n name d ∙ h)
    ∙ rw (remove_file-contains n name d h) (ground arith)

purge-is_denied :
    (names : List Text) (d : Disk) (name : Text) → is_denied name (purge names d) ≡ is_denied name d
unfolding purge
purge-is_denied [] d name = refl
purge-is_denied (n ∷ names) d name =
    purge-is_denied names (remove_file n d).1 name ∙ remove_file-is_denied n name d

-- What the purge leaves.
purged :
    (d : Disk) (name : Text)
    → is_denied name d ≡ false
    → contains_key name (purge (connection_profile_paths d) d).files
      ≡ (contains_key name d.files && not (is_profile_name name))
unfolding connection_profile_paths
purged d name h =
    purge-contains (connection_profile_paths d) d name h
    ∙ rw (holds-filter is_profile_name (names_in d.files) name, holds-names_in name d.files)
        (ground arith)

flag_name-other : (name : Text) → is_profile_name name ≡ true → text_eq flag_name name ≡ false
flag_name-other name h =
    ground
      (arith, is_profile_name-other name h, text_eq_iff flag_name name, text_eq_iff name flag_name)

-- The flag's file alone is written.
module _ {F : Type 0} (s : Serde F) where
  write_service_flag-profiles :
      (now : ℤ) (pct : F) (d : Disk) (name : Text)
      → is_profile_name name ≡ true
      → (contains_key name (write_service_flag s now pct d).1.files ≡ contains_key name d.files)
        × (is_denied name (write_service_flag s now pct d).1 ≡ is_denied name d)
  unfolding write_service_flag write is_denied
  write_service_flag-profiles now pct d name h =
      elim (Result-cases (s.flag_to_string (record { updated_ms = now; memory_pct = pct }))) [
        | inr (m, e) ↦ rw (write_service_flag, e) (refl, refl)
        | inl (t, e) ↦ elim (Bool-cases (is_denied flag_name d)) [
          | inl refused ↦ rw (write_service_flag, e, write, refused) (refl, refl)
          | inr allowed ↦
              rw (write_service_flag, e, write, allowed)
                (
                  rw (contains_key-insert flag_name name t d.files, flag_name-other name h) refl,
                  refl,
                )
        ]
      ]

module _ {V F S : Type 0} (f : Float F) (s : Serde F) (limit : Option ℕ) (e : Engine V F S) where
  disk_or : Disk → Start V F S → Disk
  disk_or d (live l) = l.disk
  disk_or d _ = d

  took_over-purged :
      (now : ℤ) (pct : F) (t : S) (fifos : Fifos) (r : Result (Unit {0})) (d : Disk)
      (l : Loop V F S) (name : Text)
      → took_over f s limit e now pct t fifos (r, d) ≡ live l
      → is_profile_name name ≡ true
      → is_denied name d ≡ false
      → exists name l.disk ≡ false
  unfolding took_over exists disk_or
  took_over-purged now pct t fifos (err m) d l name started h allowed = cc
  took_over-purged now pct t fifos (ok u) d l name started h allowed =
      let clean : contains_key name (purge (connection_profile_paths d) d).files ≡ false =
        rw (purged d name allowed, h) (ground arith) in
      ap (λ x. contains_key name (disk_or d x).files) (sym started) ∙ clean

  -- A takeover leaves no profile of an earlier run, where the system lets it remove them.
  start-purged :
      (now : Result ℤ) (memory : Option ℕ) (t : S) (d : Disk) (fifos : Fifos) (l : Loop V F S)
      (name : Text)
      → start f s limit e now memory t d fifos ≡ live l
      → is_profile_name name ≡ true
      → is_denied name d ≡ false
      → exists name l.disk ≡ false
  unfolding start with_flag take_over
  start-purged (err m) memory t d fifos l name started h allowed = cc
  start-purged (ok now) memory t d fifos l name started h allowed =
      elim (Result-cases (read_service_flag s d)) [
        | inr (m, bad) ↦ cc (rw (bad, with_flag) at started)
        | inl (flag, read) ↦ elim (Bool-cases (another_lives now flag)) [
          | inl other ↦ cc (rw (read, with_flag, other) at started)
          | inr alone ↦
              let pct = memory_pct f limit memory in
              took_over-purged now pct t fifos _ _ l name (rw (read, with_flag, alone) at started) h
                ((write_service_flag-profiles s now pct d name h).1 ∙ allowed)
        ]
      ]

-- A profile of the connection that is new in the second directory.
abbrev pub Arrived : Disk → Disk → Text → Type 0
Arrived d d' id = (p : Profiled d' id) × (exists (Profiled.path p) d ≡ false)

module _ {V F S : Type 0} (j : Json V) (f : Float F) (s : Serde F) (limit : Option ℕ)
    (e : Engine V F S) where
  flag_written-disk :
      (at : ℤ) (pct : F) (r : Result (Unit {0})) (d : Disk) (l : Loop V F S)
      → (flag_written at pct (r, d) l).1.disk ≡ d
  unfolding flag_written
  flag_written-disk at pct (err m) d l = refl
  flag_written-disk at pct (ok u) d l = refl

  refresh_flag-profiles :
      (at : ℤ) (memory : Option ℕ) (l : Loop V F S) (name : Text)
      → is_profile_name name ≡ true
      → exists name (refresh_flag f s limit at memory l).1.disk ≡ exists name l.disk
  unfolding refresh_flag exists
  refresh_flag-profiles at memory l name h =
      elim (Bool-cases (is_due at l.flag_updated_ms flag_update_interval_ms)) [
        | inr early ↦ rw (refresh_flag, early) refl
        | inl due ↦
            let pct = memory_pct f limit memory in
            let (r, d) = write_service_flag s at pct l.disk in
            rw (refresh_flag, due)
              (ap (contains_key name) (ap (λ x. x.files) (flag_written-disk at pct r d l))
                ∙ (write_service_flag-profiles s at pct l.disk name h).0)
      ]

  -- The first round of an instance that took over greets only connections whose profile came into the
  -- directory after the takeover: those of an earlier run are gone, provided the system refuses no
  -- operation on a profile.
  pub no_ghosts :
      (now at : ℤ) (memory : Option ℕ) (t : S) (d : Disk) (fifos : Fifos) (l : Loop V F S) (os : Os)
      (id : Text)
      → start f s limit e (ok now) memory t d fifos ≡ live l
      → ((name : Text) → is_profile_name name ≡ true → is_denied name d ≡ false)
      → holds
          (new_ids
            (collect j s at os
              (refresh_flag f s limit at os.memory
                (clamp at (record l { disk = os.others l.disk }))).1).0.new_connections)
          id
        ≡ true
      → Arrived l.disk (os.others l.disk) id
  unfolding collect clamp
  no_ghosts now at memory t d fifos l os id started allowed greeted =
      let seen : Loop V F S = record l { disk = os.others l.disk } in
      let l' = (refresh_flag f s limit at os.memory (clamp at seen)).1 in
      let p = scan-new s at (record l' { pending_engine_closes = [] }) id greeted in
      (
        record {
          path = p.path;
          names_it = p.names_it;
          profile = p.profile;
          there =
              sym (refresh_flag-profiles at os.memory (clamp at seen) p.path p.profile) ∙ p.there;
        },
        start-purged f s limit e (ok now) memory t d fifos l p.path started p.profile
            (allowed p.path p.profile),
      )
