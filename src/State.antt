-- ===== src/State.antt =====
-- rust/backend/common/src/state.rs: the files in stadhouder/state/.
pub mod Profiles
use stadhouder.Base.{
  zero, ◌≡◌, Bool, true, false, not, ◌&&◌, Option, none, some, List, [], ◌∷◌, ◌++◌, Text, codes,
  filter, is_empty, Result, ok, err, or_fail, if◌then◌else◌, ◌>>=◌,
}
use stadhouder.Base.Int.{ℤ, pos}
use stadhouder.Text.{trim, parse_i64, starts_with, ends_with}
use stadhouder.Layout.{Env, stadhouder_dir, join, underscore_uuid}
use stadhouder.Float.{Float}
use stadhouder.Disk
use stadhouder.Disk.{Disk, Removal, removed, not_found, refused}

unfoldable pub state_dir : Env → Result Text
unfolding join
state_dir env = do dir ← stadhouder_dir env; ok (join dir (codes "state"))

unfoldable pub parse_int : Text → Result ℤ
parse_int contents = or_fail (parse_i64 (trim contents)) "must hold one integer"

-- What becomes of the contents of a state file of one value.
unfoldable pub parse_file : {A : Type 0} → (Text → Result A) → Text → Result (Option A)
parse_file parse contents =
    if is_empty (trim contents) then ok none else (do value ← parse contents; ok (some value))

unfoldable pub read_file : {A : Type 0} → (Text → Result A) → Env → Text → Disk → Result (Option A)
unfolding parse_file
read_file parse env name d = do
  dir ← state_dir env
  if Disk.exists name d
      then (do contents ← Disk.read_to_string name d; parse_file parse contents)
      else ok none

unfoldable pub read_int_file : Env → Text → Disk → Result (Option ℤ)
unfolding read_file parse_int
read_int_file = read_file parse_int

abbrev pub unwrap_or {ℓ} : {A : Type ℓ} → A → Option A → A
unwrap_or d none = d
unwrap_or d (some a) = a

unfoldable pub sim_time_diff_ms : Env → Disk → Result ℤ
unfolding read_int_file
sim_time_diff_ms env d = do
  value ← read_int_file env (codes "sim_time_diff") d
  ok (unwrap_or (pos 0) value)

unfoldable pub time_factor_start_ms : Env → Disk → Result ℤ
unfolding read_int_file
time_factor_start_ms env d = do
  value ← read_int_file env (codes "time_factor_start") d
  ok (unwrap_or (pos 0) value)

unfoldable pub last_run_ms : Env → Disk → Result (Option ℤ)
unfolding read_int_file
last_run_ms env d = read_int_file env (codes "last_run") d

-- The decimal print of an `i64` is a parameter.
unfoldable pub write_last_run_ms : (ℤ → Text) → Env → ℤ → Disk → Result (Unit {0}) × Disk
write_last_run_ms print env engine_ms d = elim (state_dir env) [
  | ok _ ↦ Disk.write (codes "last_run") (print engine_ms ++ 10 ∷ []) d
  | err e ↦ (err e, d)
]

pub record ServiceFlag (F : Type 0) : Type 0 where
  pub updated_ms : ℤ
  pub memory_pct : F

pub record ConnectionProfile : Type 0 where
  pub connection_id : Text
  pub user_id : Text
  pub client_to_server_pipe : Text
  pub server_to_client_pipe : Text
  pub established_ms : ℤ
  pub established_sim_ms : Option ℤ

-- The texts that serde_json makes of these two records, and back.
pub record Serde (F : Type 0) : Type 0 where
  pub flag_to_string : ServiceFlag F → Result Text
  pub flag_from_str : Text → Result (ServiceFlag F)
  pub profile_to_string : ConnectionProfile → Result Text
  pub profile_from_str : Text → Result ConnectionProfile

-- What the program relies on: what was written reads back, and is not blank.
pub record RoundTrips {F : Type 0} (s : Serde F) : Type 0 where
  pub flag_reads_back :
      (f : ServiceFlag F) (t : Text)
      → Serde.flag_to_string s f ≡ ok t
      → (Serde.flag_from_str s t ≡ ok f) × (is_empty (trim t) ≡ false)
  pub profile_reads_back :
      (p : ConnectionProfile) (t : Text)
      → Serde.profile_to_string s p ≡ ok t
      → Serde.profile_from_str s t ≡ ok p

abbrev pub flag_name : Text
flag_name = codes "service_flag"

module _ {F : Type 0} (f : Float F) where
  unfoldable pub parse_float : Text → Result F
  parse_float contents = or_fail (f.parse (trim contents)) "must hold one number"

  unfoldable pub read_float_file : Env → Text → Disk → Result (Option F)
  unfolding read_file parse_float
  read_float_file = read_file parse_float

  checked_factor : Option F → Result F
  checked_factor none = ok f.one
  checked_factor (some factor) =
      if f.gtb factor f.zero then ok factor else err "time_factor must be > 0"

  unfoldable pub time_factor : Env → Disk → Result F
  unfolding read_float_file checked_factor
  time_factor env d = do value ← read_float_file env (codes "time_factor") d; checked_factor value

module _ {F : Type 0} (s : Serde F) where
  unfoldable pub read_service_flag : Disk → Result (Option (ServiceFlag F))
  unfolding parse_file
  read_service_flag d =
      if Disk.exists flag_name d
      then (do contents ← Disk.read_to_string flag_name d; parse_file s.flag_from_str contents)
      else ok none

  unfoldable pub write_service_flag : ℤ → F → Disk → Result (Unit {0}) × Disk
  write_service_flag engine_ms memory_pct d =
      elim (s.flag_to_string (record { updated_ms = engine_ms; memory_pct = memory_pct })) [
        | ok contents ↦ Disk.write flag_name contents d
        | err e ↦ (err e, d)
      ]

unfoldable pub remove_service_flag : Disk → Disk
remove_service_flag d = (Disk.remove_file flag_name d).1

-- The name of a connection's profile file.
unfoldable pub profile_name : Text → Text
unfolding underscore_uuid
profile_name connection_id = codes "connection_" ++ (underscore_uuid connection_id ++ codes ".json")

unfoldable pub tmp_name : Text → Text
unfolding underscore_uuid
tmp_name connection_id = codes ".tmp_connection_" ++ underscore_uuid connection_id

unfoldable pub is_profile_name : Text → Bool
unfolding starts_with ends_with
is_profile_name name = starts_with (codes "connection_") name && ends_with (codes ".json") name

unfoldable pub connection_profile_paths : Disk → List Text
unfolding is_profile_name
connection_profile_paths d = filter is_profile_name (Disk.names_in d.files)

deletion : Removal × Disk → Result Bool × Disk
deletion (removed, d) = (ok true, d)
deletion (not_found, d) = (ok false, d)
deletion (refused, d) = (err "failed to delete", d)

unfoldable pub delete_connection_profile : Text → Disk → Result Bool × Disk
unfolding deletion
delete_connection_profile connection_id d =
    deletion (Disk.remove_file (profile_name connection_id) d)

module _ {F : Type 0} (s : Serde F) where
  -- `save` writes the whole text under another name and then moves it into place. The result has the
  -- directory after each of the two operations.
  unfoldable pub save : ConnectionProfile → Disk → Result (Unit {0}) × Disk × Disk
  save p d = elim (s.profile_to_string p) [
    | err e ↦ (err e, d, d)
    | ok contents ↦
        let (r, d₁) = Disk.write (tmp_name p.connection_id) contents d in
        elim r [
          | err e ↦ (err e, d₁, d₁)
          | ok _ ↦
              let (r', d₂) =
                Disk.rename (tmp_name p.connection_id) (profile_name p.connection_id) d₁ in
              (r', d₁, d₂)
        ]
  ]

  unfoldable pub load : Text → Disk → Result ConnectionProfile
  load name d = do contents ← Disk.read_to_string name d; s.profile_from_str contents
