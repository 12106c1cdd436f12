-- ===== src/Runtime/Flag.antt =====
-- The flag file of the running instance: no stage of a round but the refresh touches it.
pub mod Rounds
pub mod Singleton
pub mod Instances
use stadhouder.Base.{
  ℕ, ◌≡◌, refl, ap, sym, ◌∙◌, inl, inr, true, false, Bool, Option, none, some, List, [], ◌∷◌, ◌++◌,
  arith, Text, codes, filter, All, Result, ok, err, text_eq, text_eq_iff, Bool-cases, Option-cases,
  Result-cases, Assoc, lookup, contains_key, contains_key-lookup, lookup-remove,
}
use stadhouder.Base.Int.{ℤ}
use stadhouder.Disk.{Disk, is_denied, exists, read_to_string, remove_file}
use stadhouder.State.{
  Serde, ConnectionProfile, ServiceFlag, flag_name, profile_name, is_profile_name,
  read_service_flag, delete_connection_profile, connection_profile_paths, load,
}
use stadhouder.State.Profiles.{delete_connection_profile-disk}
use stadhouder.Json.{Json}
use stadhouder.Pipes.Server.{PipeNames, Fifos, InboundServerPipe, OutboundServerPipe}
use stadhouder.Service.{Batch, Engine, EngineOutput}
use stadhouder.Runtime.{LiveConnection, Loop, teardown, is_due, scan_interval_ms}
use stadhouder.Runtime.Scan.{
  install, serve, pick_up, pick_up_all, forget, drop_gone, absent_from, ids_on_disk, scan, scan_now,
}
use stadhouder.Runtime.Drain.{disconnect, drop_inactive, silent, drain_all}
use stadhouder.Runtime.Timers.{expire}
use stadhouder.Runtime.Output.{has_events, queue_all, close, close_all, apply_output, call_engine}
use stadhouder.Runtime.Round.{Os, collect}
use stadhouder.Runtime.Start.{purge}

-- The flag file is as it was, and may be read and written as before.
pub record KeepsFlag (d d' : Disk) : Type 0 where
  pub file : lookup flag_name d'.files ≡ lookup flag_name d.files
  pub denied : d'.denied ≡ d.denied

pub KeepsFlag-refl : (d : Disk) → KeepsFlag d d
KeepsFlag-refl d = record { file = refl; denied = refl }

pub KeepsFlag-trans : {a b c : Disk} → KeepsFlag a b → KeepsFlag b c → KeepsFlag a c
KeepsFlag-trans h k = record { file = k.file ∙ h.file; denied = k.denied ∙ h.denied }

pub read_service_flag-KeepsFlag :
    {F : Type 0} (s : Serde F) (d d' : Disk)
    → KeepsFlag d d'
    → read_service_flag s d' ≡ read_service_flag s d
unfolding read_service_flag exists read_to_string is_denied
read_service_flag-KeepsFlag s d d' h =
    rw
      (
        contains_key-lookup flag_name d'.files,
        contains_key-lookup flag_name d.files,
        h.file,
        h.denied,
      )
      refl

remove_file-KeepsFlag :
    (name : Text) (d : Disk) → text_eq name flag_name ≡ false → KeepsFlag d (remove_file name d).1
unfolding remove_file
remove_file-KeepsFlag name d other = record {
  file = ground (arith, other, lookup-remove name flag_name d.files);
  denied = ground arith;
}

profile_name-other : (id : Text) → text_eq (profile_name id) flag_name ≡ false
unfolding profile_name
profile_name-other id = refl

delete_connection_profile-KeepsFlag :
    (id : Text) (d : Disk) → KeepsFlag d (delete_connection_profile id d).1
delete_connection_profile-KeepsFlag id d =
    rw (delete_connection_profile-disk id d)
      (remove_file-KeepsFlag (profile_name id) d (profile_name-other id))

pub is_profile_name-other :
    (name : Text) → is_profile_name name ≡ true → text_eq name flag_name ≡ false
unfolding is_profile_name
is_profile_name-other name h = elim (Bool-cases (text_eq name flag_name)) [
  | inl same ↦ cc (rw ((text_eq_iff name flag_name).0 same) at h)
  | inr other ↦ other
]

pub purge-KeepsFlag :
    (names : List Text) (d : Disk)
    → All (λ n. is_profile_name n ≡ true) names
    → KeepsFlag d (purge names d)
unfolding purge
purge-KeepsFlag [] d h = KeepsFlag-refl d
purge-KeepsFlag (name ∷ names) d h =
    KeepsFlag-trans (remove_file-KeepsFlag name d (is_profile_name-other name h.0))
      (purge-KeepsFlag names (remove_file name d).1 h.1)

module _ {V F S : Type 0} where
  -- The flag, the time at which this instance wrote it, and that of its start.
  pub record Stays (l l' : Loop V F S) : Type 0 where
    pub flag : KeepsFlag l.disk l'.disk
    pub time : l'.flag_updated_ms ≡ l.flag_updated_ms
    pub started : l'.started_ms ≡ l.started_ms

  Stays-refl : (l : Loop V F S) → Stays l l
  Stays-refl l = record { flag = KeepsFlag-refl l.disk; time = refl; started = refl }

  pub Stays-trans : {l l' l'' : Loop V F S} → Stays l l' → Stays l' l'' → Stays l l''
  Stays-trans h k = record {
    flag = KeepsFlag-trans h.flag k.flag;
    time = k.time ∙ h.time;
    started = k.started ∙ h.started;
  }

  disconnect-Stays : (id : Text) (l : Loop V F S) → Stays l (disconnect id l)
  unfolding disconnect teardown
  disconnect-Stays id l = elim (Option-cases (lookup id l.connections)) [
    | inl e ↦ rw (disconnect, e) (Stays-refl l)
    | inr (c, e) ↦
        rw (disconnect, e)
          (record {
            flag = delete_connection_profile-KeepsFlag id l.disk;
            time = refl;
            started = refl;
          })
  ]

  drop_inactive-Stays : (ids : List Text) (l : Loop V F S) → Stays l (drop_inactive ids l).1
  unfolding drop_inactive
  drop_inactive-Stays [] l = Stays-refl l
  drop_inactive-Stays (id ∷ ids) l =
      Stays-trans (disconnect-Stays id l) (drop_inactive-Stays ids (disconnect id l))

  install-Stays :
      (now : ℤ) (id : Text) (p : ConnectionProfile) (names : PipeNames) (fifos : Fifos)
      (r : Result (InboundServerPipe × OutboundServerPipe)) (l : Loop V F S)
      → Stays l (install now id p names fifos r l).1
  unfolding install
  install-Stays now id p names fifos (err e) l = record {
    flag = KeepsFlag-refl l.disk;
    time = refl;
    started = refl;
  }
  install-Stays now id p names fifos (ok (i, o)) l = record {
    flag = KeepsFlag-refl l.disk;
    time = refl;
    started = refl;
  }

  pick_up-Stays :
      (s : Serde F) (now : ℤ) (id path : Text) (l : Loop V F S)
      → Stays l (pick_up s now id path l).1
  unfolding pick_up serve
  pick_up-Stays s now id path l = elim (Bool-cases (contains_key id l.connections)) [
    | inl old ↦ rw (pick_up, old) (Stays-refl l)
    | inr new ↦ elim (Result-cases (load s path l.disk)) [
      | inl (p, e) ↦ rw (pick_up, new, e) (install-Stays now id p _ _ _ l)
      | inr (m, e) ↦ rw (pick_up, new, e) (Stays-refl l)
    ]
  ]

  pick_up_all-Stays :
      (s : Serde F) (now : ℤ) (m : Assoc Text) (l : Loop V F S) → Stays l (pick_up_all s now m l).1
  unfolding pick_up_all
  pick_up_all-Stays s now [] l = Stays-refl l
  pick_up_all-Stays s now ((id, path) ∷ m) l =
      Stays-trans (pick_up-Stays s now id path l)
        (pick_up_all-Stays s now m (pick_up s now id path l).1)

  forget-Stays : (id : Text) (l : Loop V F S) → Stays l (forget id l)
  unfolding forget
  forget-Stays id l = elim (Option-cases (lookup id l.connections)) [
    | inl e ↦ rw (forget, e) (Stays-refl l)
    | inr (c, e) ↦
        rw (forget, e) (record { flag = KeepsFlag-refl l.disk; time = refl; started = refl })
  ]

  drop_gone-Stays : (ids : List Text) (l : Loop V F S) → Stays l (drop_gone ids l).1
  unfolding drop_gone
  drop_gone-Stays [] l = Stays-refl l
  drop_gone-Stays (id ∷ ids) l = Stays-trans (forget-Stays id l) (drop_gone-Stays ids (forget id l))

  scan-Stays : (s : Serde F) (now : ℤ) (l : Loop V F S) → Stays l (scan s now l).2
  unfolding scan scan_now
  scan-Stays s now l = elim (Bool-cases (is_due now l.last_scan_ms scan_interval_ms)) [
    | inl due ↦
        let seen : Loop V F S = record l { last_scan_ms = now } in
        let on_disk = ids_on_disk (connection_profile_paths l.disk) in
        let l' = (pick_up_all s now on_disk seen).1 in
        let k = pick_up_all-Stays s now on_disk seen in
        rw (scan, due)
          (Stays-trans (record { flag = k.flag; time = k.time; started = k.started })
            (drop_gone-Stays (absent_from on_disk l') l'))
    | inr early ↦ rw (scan, early) (Stays-refl l)
  ]

  pub collect-Stays :
      (j : Json V) (s : Serde F) (now : ℤ) (os : Os) (l : Loop V F S)
      → Stays l (collect j s now os l).1
  unfolding collect
  collect-Stays j s now os l =
      let l₀ : Loop V F S = record l { pending_engine_closes = [] } in
      let l₁ = (scan s now l₀).2 in
      let l₂ : Loop V F S = record l₁ {
        connections = (drain_all j now os.reads l₁.connections).1;
      } in
      let k = scan-Stays s now l₀ in
      let h = drop_inactive-Stays (silent now l₂.connections) l₂ in
      record {
        flag = KeepsFlag-trans k.flag h.flag;
        time = h.time ∙ k.time;
        started = h.started ∙ k.started;
      }

  close_all-Stays : (ids : List Text) (l : Loop V F S) → Stays l (close_all ids l)
  unfolding close_all close
  close_all-Stays [] l = Stays-refl l
  close_all-Stays (id ∷ ids) l = elim (Bool-cases (contains_key id l.connections)) [
    | inl there ↦
        let h = disconnect-Stays id l in
        let l' : Loop V F S = record (disconnect id l) { pending_engine_closes = _ } in
        rw (close_all, close, there)
          (Stays-trans (record { flag = h.flag; time = h.time; started = h.started })
            (close_all-Stays ids l'))
    | inr absent ↦ rw (close_all, close, absent) (close_all-Stays ids l)
  ]

  pub call_engine-Stays :
      (e : Engine V F S) (b : Batch V F) (l : Loop V F S) → Stays l (call_engine e b l).1
  unfolding call_engine apply_output
  call_engine-Stays e b l = elim (Bool-cases (has_events b)) [
    | inl told ↦
        let (o, t) = e.process_messages b l.engine in
        let queued : Loop V F S = record l {
          engine = t;
          connections = queue_all o.messages l.connections;
        } in
        let h = close_all-Stays o.close_connections queued in
        rw (call_engine, told) (record { flag = h.flag; time = h.time; started = h.started })
    | inr quiet ↦ rw (call_engine, quiet) (Stays-refl l)
  ]
