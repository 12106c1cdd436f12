-- ===== src/State/Profiles.antt =====
-- The directory through its operations: what is written is read back, and no profile is seen before
-- it is whole.
use stadhouder.Base.{
  insert, ◌⊎◌, remove, is_empty, ◌≡◌, refl, true, false, none, some, ◌++◌, arith, Text, codes, ok,
  if◌then◌else◌, text_eq, text_eq_iff, Bool-cases, Result-cases, inl, inr, lookup, lookup-insert,
  lookup-remove,
}
use stadhouder.Base.Int.{ℤ}
use stadhouder.Disk
use stadhouder.Disk.{Disk, is_denied}
use stadhouder.Disk.Laws.{
  with_file, write-denied, write-allowed, read_to_string-with_file, exists-with_file,
  exists-remove_file, rename-with_file,
}
use stadhouder.Text
use stadhouder.Text.Laws.{ends_with-append}
use stadhouder.Layout.{underscore_uuid}
use stadhouder.State.{
  deletion, delete_connection_profile, trim, starts_with, Serde, RoundTrips, ServiceFlag,
  ConnectionProfile, flag_name, read_service_flag, write_service_flag, remove_service_flag,
  parse_file, profile_name, tmp_name, is_profile_name, save, load,
}

tmp_name-is_profile_name : (id : Text) → is_profile_name (tmp_name id) ≡ false
unfolding is_profile_name tmp_name Text.starts_with
tmp_name-is_profile_name id = refl

pub profile_name-is_profile_name : (id : Text) → is_profile_name (profile_name id) ≡ true
unfolding is_profile_name profile_name
profile_name-is_profile_name id =
    ends_with-append (codes "connection_" ++ underscore_uuid id) (codes ".json")

tmp≢profile : (id name : Text) → is_profile_name name ≡ true → text_eq (tmp_name id) name ≡ false
tmp≢profile id name h = elim (Bool-cases (text_eq (tmp_name id) name)) [
  | inl t ↦ ground (arith, h, tmp_name-is_profile_name id, (text_eq_iff (tmp_name id) name).0 t)
  | inr f ↦ f
]

module _ {F : Type 0} (s : Serde F) where
  pub write_service_flag-writes :
      (now_ms : ℤ) (pct : F) (t : Text) (d : Disk)
      → s.flag_to_string (record { updated_ms = now_ms; memory_pct = pct }) ≡ ok t
      → is_denied flag_name d ≡ false
      → write_service_flag s now_ms pct d ≡ (ok tt, with_file flag_name t d)
  unfolding write_service_flag
  write_service_flag-writes now_ms pct t d e k =
      rw (e, write_service_flag) (write-allowed flag_name t d k)

  read_service_flag-with_file :
      (f : ServiceFlag F) (t : Text) (d : Disk)
      → (s.flag_from_str t ≡ ok f) × (is_empty (trim t) ≡ false)
      → is_denied flag_name d ≡ false
      → read_service_flag s (with_file flag_name t d) ≡ ok (some f)
  unfolding read_service_flag parse_file
  read_service_flag-with_file f t d back k =
      rw
        (
          exists-with_file flag_name t d,
          read_to_string-with_file flag_name t d k,
          parse_file,
          back.1,
          back.0,
        )
        refl

  read_service_flag-removed :
      (t : Text) (d : Disk)
      → is_denied flag_name d ≡ false
      → read_service_flag s (remove_service_flag (with_file flag_name t d)) ≡ ok none
  unfolding read_service_flag remove_service_flag is_denied
  read_service_flag-removed t d k =
      rw (exists-remove_file flag_name (with_file flag_name t d) k) refl

  -- The flag that an instance writes is the flag that the next one reads, until it is removed: then
  -- there is none.
  pub flag_round_trip :
      (now_ms : ℤ) (pct : F) (t : Text) (d : Disk)
      → RoundTrips s
      → s.flag_to_string (record { updated_ms = now_ms; memory_pct = pct }) ≡ ok t
      → is_denied flag_name d ≡ false
      → let (r, d') = write_service_flag s now_ms pct d in
        (r ≡ ok tt)
        × (read_service_flag s d' ≡ ok (some (record { updated_ms = now_ms; memory_pct = pct })))
        × (read_service_flag s (remove_service_flag d') ≡ ok none)
  flag_round_trip now_ms pct t d rt e k =
      let back = rt.flag_reads_back (record { updated_ms = now_ms; memory_pct = pct }) t e in
      rw (write_service_flag-writes now_ms pct t d e k)
        (refl, read_service_flag-with_file _ t d back k, read_service_flag-removed t d k)

  -- The directory after the first operation of `save`.
  save-cases :
      (p : ConnectionProfile) (d : Disk)
      → ((save s p d).1 ≡ d)
        ⊎ ((t : Text) × ((save s p d).1 ≡ with_file (tmp_name p.connection_id) t d))
  unfolding save
  save-cases p d = elim (Result-cases (s.profile_to_string p)) [
    | inr (m, e) ↦ inl (rw (save, e) refl)
    | inl (t, e) ↦ elim (Bool-cases (is_denied (tmp_name p.connection_id) d)) [
      | inl denied ↦ inl (
          rw
            (
              save,
              e,
              write-denied (tmp_name p.connection_id) t d denied,
              write-denied (tmp_name p.connection_id) t d denied,
            )
            refl)
      | inr allowed ↦ inr (
        t,
        rw
            (
              save,
              e,
              write-allowed (tmp_name p.connection_id) t d allowed,
              write-allowed (tmp_name p.connection_id) t d allowed,
            )
            refl,
      )
    ]
  ]

  save-writes :
      (p : ConnectionProfile) (t : Text) (d : Disk)
      → s.profile_to_string p ≡ ok t
      → is_denied (tmp_name p.connection_id) d ≡ false
      → is_denied (profile_name p.connection_id) d ≡ false
      → save s p d ≡ (
        ok tt,
        with_file (tmp_name p.connection_id) t d,
        with_file (profile_name p.connection_id) t (record d {
          files = remove (tmp_name p.connection_id) (insert (tmp_name p.connection_id) t d.files);
        }),
      )
  unfolding save
  save-writes p t d e k k' =
      rw
        (
          e,
          save,
          write-allowed (tmp_name p.connection_id) t d k,
          write-allowed (tmp_name p.connection_id) t d k,
          rename-with_file (tmp_name p.connection_id) (profile_name p.connection_id) t d k k',
        )
        refl

  -- A writer that stops after any of its steps, or whose step the system refuses, has not changed what
  -- a scan finds: between the two operations of `save` every profile name holds what it held before.
  pub save_unseen :
      (p : ConnectionProfile) (d : Disk) (name : Text)
      → is_profile_name name ≡ true
      → let (r, d₁, d₂) = save s p d in lookup name d₁.files ≡ lookup name d.files
  save_unseen p d name h = elim (save-cases p d) [
    | inl e ↦ rw e refl
    | inr (t, e) ↦
        rw
          (
            e,
            lookup-insert (tmp_name p.connection_id) name t d.files,
            tmp≢profile p.connection_id name h,
          )
          refl
  ]

  -- A profile that was saved is loaded back from the name that it has, under that name a scan finds it,
  -- and every other profile is as it was.
  pub load-save :
      (p : ConnectionProfile) (t : Text) (d : Disk) (other : Text)
      → RoundTrips s
      → s.profile_to_string p ≡ ok t
      → is_denied (tmp_name p.connection_id) d ≡ false
      → is_denied (profile_name p.connection_id) d ≡ false
      → is_profile_name other ≡ true
      → let (r, d₁, d₂) = save s p d in
        (r ≡ ok tt)
        × (load s (profile_name p.connection_id) d₂ ≡ ok p)
        × (is_profile_name (profile_name p.connection_id) ≡ true)
        × (lookup other d₂.files ≡ (
            if text_eq (profile_name p.connection_id) other then some t else lookup other d.files))
  unfolding load is_denied
  load-save p t d other rt e k k' h = rw (save-writes p t d e k k') (
    refl,
    rw
        (read_to_string-with_file (profile_name p.connection_id) t
          (record d {
            files = remove (tmp_name p.connection_id) (insert (tmp_name p.connection_id) t d.files);
          })
          k')
        (rt.profile_reads_back p t e),
    profile_name-is_profile_name p.connection_id,
    rw
        (
          lookup-insert (profile_name p.connection_id) other t
              (remove (tmp_name p.connection_id) (insert (tmp_name p.connection_id) t d.files)),
          lookup-remove (tmp_name p.connection_id) other
              (insert (tmp_name p.connection_id) t d.files),
          lookup-insert (tmp_name p.connection_id) other t d.files,
          tmp≢profile p.connection_id other h,
        )
        refl,
  )

deletion-disk : (x : Disk.Removal × Disk) → (deletion x).1 ≡ x.1
unfolding deletion
deletion-disk (Disk.removed, d) = refl
deletion-disk (Disk.not_found, d) = refl
deletion-disk (Disk.refused, d) = refl

pub delete_connection_profile-disk :
    (id : Text) (d : Disk)
    → (delete_connection_profile id d).1 ≡ (Disk.remove_file (profile_name id) d).1
unfolding delete_connection_profile
delete_connection_profile-disk id d = deletion-disk (Disk.remove_file (profile_name id) d)

pub exists-delete_connection_profile :
    (id : Text) (d : Disk)
    → is_denied (profile_name id) d ≡ false
    → Disk.exists (profile_name id) (delete_connection_profile id d).1 ≡ false
exists-delete_connection_profile id d h =
    rw (delete_connection_profile-disk id d) (exists-remove_file (profile_name id) d h)

pub delete_connection_profile-absent :
    (id : Text) (d : Disk)
    → Disk.exists (profile_name id) d ≡ false
    → delete_connection_profile id d ≡ (ok false, d)
unfolding delete_connection_profile deletion Disk.remove_file Disk.exists
delete_connection_profile-absent id d h = rw h refl
