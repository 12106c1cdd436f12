-- ===== src/Runtime/Scan.antt =====
-- Lines 218 to 291 of runtime.rs: the scan of the state directory for connection profiles.
pub mod Paths
pub mod Found
pub mod Gone
pub mod New
use stadhouder.Base.{
  not, Option, none, some, List, [], ◌∷◌, ◌++◌, Text, filter, Result, ok, err, if◌then◌else◌, Assoc,
  lookup, contains_key, insert, remove, ◌>>=◌,
}
use stadhouder.Base.Int.{ℤ}
use mathlib.Core.List.{foldl}
use stadhouder.State.{Serde, ConnectionProfile, connection_profile_paths, load}
use stadhouder.Pipes.Server.{
  PipeNames, Fifos, InboundServerPipe, OutboundServerPipe, create_serving_pipes, create_inbound,
  create_outbound, remove_serving_pipes,
}
use stadhouder.Service.{NewConnection, ClosedConnection, client_disconnected}
use stadhouder.Runtime.{Loop, connection_id_from_filename, is_due, scan_interval_ms}

put_id : Option Text → Text → Assoc Text → Assoc Text
put_id none path on_disk = on_disk
put_id (some id) path on_disk = insert id path on_disk

put_path : Assoc Text → Text → Assoc Text
unfolding put_id
put_path on_disk path = put_id (connection_id_from_filename path) path on_disk

-- The connections that have a profile, each with its file's name.
unfoldable pub ids_on_disk : List Text → Assoc Text
unfolding put_path
ids_on_disk paths = foldl put_path [] paths

-- The keys of a map.
abbrev pub keys {ℓ} : {A : Type ℓ} → Assoc A → List Text
keys [] = []
keys ((id, a) ∷ m) = id ∷ keys m

unfoldable pub open_pipes :
    PipeNames → Result (Unit {0}) × Fifos → Result (InboundServerPipe × OutboundServerPipe)
open_pipes names (made, fifos) = do
  _ ← made
  inbound ← create_inbound names.client_to_server fifos
  outbound ← create_outbound names.server_to_client
  ok (inbound, outbound)

module _ {V F S : Type 0} where
  -- The connection whose pipes were opened is served; where they could not be, it is left for a
  -- later scan.
  unfoldable pub install :
      ℤ
      → Text
      → ConnectionProfile
      → PipeNames
      → Fifos
      → Result (InboundServerPipe × OutboundServerPipe)
      → Loop V F S
      → List NewConnection × Loop V F S
  install now_ms id profile names fifos (err e) l = ([], record l { fifos = fifos })
  install now_ms id profile names fifos (ok (inbound, outbound)) l = (
    record { connection_id = id; user_id = profile.user_id } ∷ [],
    record l {
      fifos = fifos;
      connections =
          insert id
            (record {
              inbound = inbound;
              outbound = outbound;
              pipe_names = names;
              outbox = [];
              last_message_ms = now_ms;
            })
            l.connections;
    },
  )

  -- A new connection with a profile that could be read.
  unfoldable pub serve : ℤ → Text → ConnectionProfile → Loop V F S → List NewConnection × Loop V F S
  unfolding open_pipes install
  serve now_ms id profile l =
      let names : PipeNames = record {
        client_to_server = profile.client_to_server_pipe;
        server_to_client = profile.server_to_client_pipe;
      } in
      let created = create_serving_pipes names l.fifos in
      install now_ms id profile names created.1 (open_pipes names created) l

  module _ (s : Serde F) where
    unfoldable pub pick_up : ℤ → Text → Text → Loop V F S → List NewConnection × Loop V F S
    unfolding serve
    pick_up now_ms id path l =
        if contains_key id l.connections
        then ([], l)
        else elim (load s path l.disk) [ err e ↦ ([], l) | ok profile ↦ serve now_ms id profile l ]

    unfoldable pub pick_up_all : ℤ → Assoc Text → Loop V F S → List NewConnection × Loop V F S
    pick_up_all now_ms [] l = ([], l)
    pick_up_all now_ms ((id, path) ∷ rest) l =
        let (ns, l') = pick_up now_ms id path l in
        let (ms, l'') = pick_up_all now_ms rest l' in (ns ++ ms, l'')

  -- The connection is taken out of the registry, and its pipes are removed.
  unfoldable pub forget : Text → Loop V F S → Loop V F S
  forget id l = elim (lookup id l.connections) [
    | none ↦ l
    | some c ↦ record l {
      connections = remove id l.connections;
      fifos = remove_serving_pipes c.pipe_names l.fifos;
    }
  ]

  unfoldable pub drop_gone : List Text → Loop V F S → List ClosedConnection × Loop V F S
  unfolding forget
  drop_gone [] l = ([], l)
  drop_gone (id ∷ ids) l =
      let (cs, l') = drop_gone ids (forget id l) in
      (record { connection_id = id; reason = client_disconnected } ∷ cs, l')

  unfoldable pub absent_from : Assoc Text → Loop V F S → List Text
  absent_from on_disk l = filter (λ id. not (contains_key id on_disk)) (keys l.connections)

  module _ (s : Serde F) where
    -- The new connections, and those that are gone.
    unfoldable pub scan_now :
        ℤ → Loop V F S → List NewConnection × List ClosedConnection × Loop V F S
    unfolding absent_from
    scan_now now_ms l =
        let on_disk = ids_on_disk (connection_profile_paths l.disk) in
        let (ns, l') = pick_up_all s now_ms on_disk (record l { last_scan_ms = now_ms }) in
        let (cs, l'') = drop_gone (absent_from on_disk l') l' in (ns, cs, l'')

    unfoldable pub scan : ℤ → Loop V F S → List NewConnection × List ClosedConnection × Loop V F S
    scan now_ms l =
        if is_due now_ms l.last_scan_ms scan_interval_ms then scan_now now_ms l else ([], [], l)
