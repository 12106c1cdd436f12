-- ===== src/Runtime/Round/Exits.antt =====
-- How the loop ends, what it leaves behind, and the times that it reckons from.
use stadhouder.Base.{
  ◌≡◌, refl, ◌∙◌, ◌↔◌, ◌⊎◌, true, false, Bool, [], ◌∷◌, arith, Text, All, Result, text_eq,
  text_eq_iff, inl, inr, Bool-cases, Assoc, contains_key, contains_key-remove,
}
use stadhouder.Base.Int.{ℤ, pos, IsTime, ◌≤ℤ◌, ◌+ℤ◌, +ℤ_parts, -ℤ_parts, sub_i64-exact}
use stadhouder.Disk.{Disk, is_denied, exists, remove_file}
use stadhouder.Disk.Laws.{exists-remove_file}
use stadhouder.Pipes.Server.{Fifos}
use stadhouder.State.Profiles.{delete_connection_profile-disk}
use stadhouder.State.{flag_name, profile_name, remove_service_flag, delete_connection_profile}
use stadhouder.Service.{Engine}
use stadhouder.Runtime.{LiveConnection, Loop, teardown, is_due, idle_exit_ms, scan_interval_ms}
use stadhouder.Runtime.Round.{
  again, finished, clamp, clamp_all, clamp_time, leave, shut_down, teardown_all,
}

-- No later than now.
module _ {V : Type 0} where
  abbrev pub HeardBy : ℤ → Text × LiveConnection V → Type 0
  HeardBy now_ms e = e.1.last_message_ms ≤ℤ now_ms

  clamp_all-HeardBy :
      (now_ms : ℤ) (m : Assoc (LiveConnection V)) → All (HeardBy now_ms) (clamp_all now_ms m)
  unfolding clamp_all clamp_time
  clamp_all-HeardBy now_ms [] = tt
  clamp_all-HeardBy now_ms ((id, c) ∷ m) = (ground arith, clamp_all-HeardBy now_ms m)

module _ {V F S : Type 0} where
  -- However far the clock was set back, after the clamp no time that the loop reckons from lies in the
  -- future.
  pub clamp_past :
      (now_ms : ℤ) (l : Loop V F S)
      → IsTime now_ms
      → let l' = clamp now_ms l in
        (l'.started_ms ≤ℤ now_ms)
        × (l'.flag_updated_ms ≤ℤ now_ms)
        × (l'.last_scan_ms ≤ℤ now_ms)
        × All (HeardBy now_ms) l'.connections
  unfolding clamp clamp_time
  clamp_past now_ms l h = (
    ground arith,
    ground arith,
    ground (
      arith,
      sub_i64-exact now_ms (pos scan_interval_ms) h
          (record { low = omega arith; high = omega arith }),
      -ℤ_parts now_ms (pos scan_interval_ms),
    ),
    clamp_all-HeardBy now_ms l.connections,
  )

-- What is not in the directory does not come there by a deletion.
exists-remove_file_mono :
    (name other : Text) (d : Disk)
    → exists name d ≡ false
    → exists name (remove_file other d).1 ≡ false
unfolding exists remove_file
exists-remove_file_mono name other d h = ground (arith, contains_key-remove other name d.files)

denied-remove_file :
    (name other : Text) (d : Disk) → is_denied name (remove_file other d).1 ≡ is_denied name d
unfolding remove_file is_denied
denied-remove_file name other d = ground arith

module _ {V : Type 0} where
  teardown_all-gone :
      (name : Text) (m : Assoc (LiveConnection V)) (d : Disk) (fifos : Fifos)
      → exists name d ≡ false
      → exists name (teardown_all m (d, fifos)).0 ≡ false
  unfolding teardown_all teardown
  teardown_all-gone name [] d fifos h = h
  teardown_all-gone name ((id, c) ∷ m) d fifos h =
      teardown_all-gone name m (delete_connection_profile id d).1 _ (
        rw (delete_connection_profile-disk id d)
          (exists-remove_file_mono name (profile_name id) d h))

  denied-teardown_all :
      (name : Text) (m : Assoc (LiveConnection V)) (d : Disk) (fifos : Fifos)
      → is_denied name (teardown_all m (d, fifos)).0 ≡ is_denied name d
  unfolding teardown_all teardown
  denied-teardown_all name [] d fifos = refl
  denied-teardown_all name ((id, c) ∷ m) d fifos =
      denied-teardown_all name m (delete_connection_profile id d).1 _
      ∙ rw (delete_connection_profile-disk id d) (denied-remove_file name (profile_name id) d)

  teardown_all-profile :
      (id : Text) (m : Assoc (LiveConnection V)) (d : Disk) (fifos : Fifos)
      → contains_key id m ≡ true
      → is_denied (profile_name id) d ≡ false
      → exists (profile_name id) (teardown_all m (d, fifos)).0 ≡ false
  unfolding teardown_all teardown contains_key
  teardown_all-profile id [] d fifos h k = cc
  teardown_all-profile id ((i, c) ∷ m) d fifos h k = elim (Bool-cases (text_eq i id)) [
    | inl t ↦ teardown_all-gone (profile_name id) m (delete_connection_profile i d).1 _ (
        rw (delete_connection_profile-disk i d, (text_eq_iff i id).0 t)
          (exists-remove_file (profile_name id) d k))
    | inr f ↦ teardown_all-profile id m (delete_connection_profile i d).1 _ (ground (arith, f)) (
        rw (delete_connection_profile-disk i d)
          (denied-remove_file (profile_name id) (profile_name i) d ∙ k))
  ]

module _ {V F S : Type 0} (e : Engine V F S) where
  -- A round that goes on leaves the loop as the polls left it.
  pub leave-again :
      (now : ℤ) (pause : Result (Unit {0})) (shutdown : Bool) (l : Loop V F S)
      → (leave e now pause shutdown l).0 ≡ again
      → (leave e now pause shutdown l).1 ≡ l
  unfolding leave
  leave-again now pause shutdown l h = ground arith

  -- The loop ends without an error exactly if the engine orders it, or if there is no connection and the
  -- instance is 56 seconds old.
  pub finishes_iff :
      (now_ms : ℤ) (pause : Result (Unit {0})) (shutdown : Bool) (l : Loop V F S)
      → IsTime now_ms
      → IsTime l.started_ms
      → ((leave e now_ms pause shutdown l).0 ≡ finished) ↔ (
          (shutdown ≡ true) ⊎ ((l.connections ≡ []) × (l.started_ms +ℤ pos idle_exit_ms ≤ℤ now_ms)))
  unfolding leave is_due
  finishes_iff now_ms pause shutdown l h k =
      rw (sub_i64-exact now_ms l.started_ms h k)
        (ground (arith, -ℤ_parts now_ms l.started_ms, +ℤ_parts l.started_ms (pos idle_exit_ms)))

  -- A shutdown that the engine ordered leaves no flag and no profile of a connection that it had, as far
  -- as the system lets it delete them, and does not call the engine again, not even for its own hook.
  pub shutdown_cleans :
      (now_ms : ℤ) (pause : Result (Unit {0})) (id : Text) (l : Loop V F S)
      → contains_key id l.connections ≡ true
      → is_denied (profile_name id) l.disk ≡ false
      → is_denied flag_name l.disk ≡ false
      → let (x, l') = leave e now_ms pause true l in
        (x ≡ finished)
        × (exists (profile_name id) l'.disk ≡ false)
        × (exists flag_name l'.disk ≡ false)
        × (l'.engine ≡ l.engine)
  unfolding leave shut_down remove_service_flag
  shutdown_cleans now_ms pause id l h k f =
      let d = (teardown_all l.connections (l.disk, l.fifos)).0 in
      (
        refl,
        exists-remove_file_mono (profile_name id) flag_name d
            (teardown_all-profile id l.connections l.disk l.fifos h k),
        exists-remove_file flag_name d
            (denied-teardown_all flag_name l.connections l.disk l.fifos ∙ f),
        refl,
      )
