-- ===== src/Client/Closed.antt =====
-- The client program and the service: a connection that was closed is reported by the next scan.
use mathlib.Core.List.{Mem, mem-append_left, mem-append_right, not-mem-nil}
use stadhouder.Base.{
  ◌≡◌, refl, ◌∙◌, true, false, List, [], ◌∷◌, map, Text, arith, ok, filter, is_empty, contains_key,
  holds, holds-filter,
}
use stadhouder.Base.Int.{ℤ}
use stadhouder.Json.{Json}
use stadhouder.Disk
use stadhouder.Disk.{Disk, is_denied, names_in}
use stadhouder.Layout.{Env}
use stadhouder.State.{Serde, profile_name, is_profile_name, connection_profile_paths}
use stadhouder.Disk.Laws.{holds-names_in}
use stadhouder.Client.{close}
use stadhouder.Client.Connect.{close-gone}
use stadhouder.Service.{ClosedConnection, client_disconnected}
use stadhouder.Runtime.{Loop, is_due, scan_interval_ms}
use stadhouder.Runtime.Scan.{scan, ids_on_disk}
use stadhouder.Runtime.Scan.Paths.{Unshared}
use stadhouder.Runtime.Scan.Gone.{Unshared-Unnamed, contains_key-ids_on_disk, scan-gone}
use stadhouder.Runtime.Drain.{drain_all, silent, drop_inactive}
use stadhouder.Runtime.Output.{has_events}
use stadhouder.Runtime.Registry.Keep.{closed_for}
use stadhouder.Runtime.Registry.Steps.{drain_all-keys, drop_inactive-live}
use stadhouder.Runtime.Round.{Os, collect, requested}

not_empty : (c : ClosedConnection) (cs : List ClosedConnection) → Mem c cs → is_empty cs ≡ false
not_empty c [] h = absurd (not-mem-nil h)
not_empty c (d ∷ cs) h = refl

module _ {V F S : Type 0} (j : Json V) (s : Serde F) where
  collect-gone :
      (now : ℤ) (os : Os) (l : Loop V F S) (id : Text)
      → contains_key id (ids_on_disk (connection_profile_paths l.disk)) ≡ false
      → contains_key id l.connections ≡ true
      → is_due now l.last_scan_ms scan_interval_ms ≡ true
      → let (b, l') = collect j s now os l in
        Mem (closed_for client_disconnected id) b.closed_connections
        × (contains_key id l'.connections ≡ false)
        × (has_events b ≡ true)
  unfolding collect has_events
  collect-gone now os l id absent there due =
      let l₀ : Loop V F S = record l { pending_engine_closes = [] } in
      let (_, gone, l₁) = scan s now l₀ in
      let m = (drain_all j now os.reads l₁.connections).1 in
      let l₂ : Loop V F S = record l₁ { connections = m } in
      let idle = (drop_inactive (silent now m) l₂).0 in
      let (reported, out) = scan-gone s now id l₀ absent there due in
      let told =
        mem-append_right (map requested l.pending_engine_closes) (mem-append_left idle reported) in
      let still : contains_key id m ≡ false =
        drain_all-keys j now os.reads l₁.connections id ∙ out in
      (
        told,
        drop_inactive-live (silent now m) l₂ id ∙ rw still refl,
        ground (arith, not_empty (closed_for client_disconnected id) _ told),
      )

  -- Once the client program has answered a close, the next round whose scan is due reports the connection
  -- to the engine, which is called in that round, as disconnected by the client, and the service has it no
  -- more, if the system does not refuse the profile's removal and no other profile's name stands for the
  -- id.
  pub close-reported :
      (env : Env) (id : Text) (d : Disk) (v : V) (now : ℤ) (os : Os) (l : Loop V F S)
      → is_denied (profile_name id) d ≡ false
      → close j env id d ≡ (ok v, l.disk)
      → Unshared id (connection_profile_paths l.disk)
      → contains_key id l.connections ≡ true
      → is_due now l.last_scan_ms scan_interval_ms ≡ true
      → let (b, l') = collect j s now os l in
        Mem (closed_for client_disconnected id) b.closed_connections
        × (contains_key id l'.connections ≡ false)
        × (has_events b ≡ true)
  unfolding Disk.exists connection_profile_paths
  close-reported env id d v now os l k h own there due =
      let names = names_in l.disk.files in
      let none_held : holds (filter is_profile_name names) (profile_name id) ≡ false =
        rw
          (
            holds-filter is_profile_name names (profile_name id),
            holds-names_in (profile_name id) l.disk.files,
            close-gone j env id d l.disk v k h,
          )
          (ground arith) in
      collect-gone now os l id
        (contains_key-ids_on_disk id (connection_profile_paths l.disk)
          (Unshared-Unnamed id (connection_profile_paths l.disk) own none_held))
        there due
