-- ===== src/Client/PickedUp.antt =====
-- The client program and the service: a connection that was made is opened by the next scan.
use stadhouder.Base.{◌≡◌, true, false, Text, All, ok, ◌==◌, contains_key, holds}
use stadhouder.Base.Int.{ℤ}
use stadhouder.Json.{Json}
use stadhouder.Float.{Float}
use stadhouder.Disk.{Disk, is_denied}
use stadhouder.State.{
  Serde, RoundTrips, ConnectionProfile, load, profile_name, tmp_name, connection_profile_paths,
}
use stadhouder.Client.{Surroundings, connect}
use stadhouder.Client.Connect.{connect_found}
use stadhouder.Runtime.{Loop, is_due, scan_interval_ms}
use stadhouder.Runtime.Names.{connection_id_from_filename-profile_name}
use stadhouder.Runtime.Scan.{scan}
use stadhouder.Runtime.Scan.Paths.{Unshared}
use stadhouder.Runtime.Scan.Found.{CanOpen, scan-found}
use stadhouder.Runtime.Registry.Steps.{new_ids}

module _ {V F S : Type 0} (j : Json V) (f : Float F) (s : Serde F) where
  -- Once the client program has answered a connect, the next scan that is due, of a service that does not
  -- have the connection yet, reports it as new and leaves it in the registry, if the system refused no
  -- file of its profile, the id is like a UUID's without underscores, no other profile's name stands for
  -- it, and the system makes the profile's FIFOs.
  pub connect-picked_up :
      (w : Surroundings) (claimed : Text) (d : Disk) (v : V) (now : ℤ) (l : Loop V F S)
      → RoundTrips s
      → All (λ c. (c == b'_') ≡ false) w.uuid
      → is_denied (tmp_name w.uuid) d ≡ false
      → is_denied (profile_name w.uuid) d ≡ false
      → connect j f s w claimed d ≡ (ok v, l.disk)
      → Unshared w.uuid (connection_profile_paths l.disk)
      → ((p : ConnectionProfile) → load s (profile_name w.uuid) l.disk ≡ ok p → CanOpen p l.fifos)
      → contains_key w.uuid l.connections ≡ false
      → is_due now l.last_scan_ms scan_interval_ms ≡ true
      → (holds (new_ids (scan s now l).0) w.uuid ≡ true)
        × (contains_key w.uuid (scan s now l).2.connections ≡ true)
  connect-picked_up w claimed d v now l rt plain k k' h own opens absent due =
      let (p, _, loads) = connect_found j f s w claimed d l.disk v rt k k' h in
      scan-found s now w.uuid p l (connection_id_from_filename-profile_name w.uuid plain) own loads
        (opens p loads) absent due
