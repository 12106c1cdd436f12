-- ===== src/Config.antt =====
-- rust/backend/common/src/config.rs
pub mod Laws
pub mod Printed
pub mod Valid
use stadhouder.Base.{
  ℕ, zero, ◌*◌, ◌%◌, ◌^◌, Bool, true, false, not, ◌||◌, Option, none, some, List, [], map, Text,
  codes, filter, is_empty, Result, ok, err, ◌==◌, if◌then◌else◌, Assoc, lookup, insert, ◌>>=◌,
}
use mathlib.Core.List.{foldl}
use stadhouder.Text.{trim, lines, split_once, starts_with, eq_ignore_ascii_case, parse_u64}
use stadhouder.Float.{Float}

pub record Config (F : Type 0) : Type 0 where
  pub test_env : Bool
  pub cookie_name : Option Text
  pub user_id_url : Option Text
  pub user_id_json : Option Text
  pub memory_limit_bytes : Option ℕ
  pub memory_reject_pct : F

-- What one line adds to the map.
unfoldable pub put_pair : Option (Text × Text) → Assoc Text → Assoc Text
put_pair none values = values
put_pair (some (key, value)) values = insert (trim key) (trim value) values

unfoldable pub put_line : Assoc Text → Text → Assoc Text
unfolding put_pair
put_line values raw =
    let line = trim raw in
    if is_empty line || starts_with (codes "#") line
    then values
    else put_pair (split_once b'=' line) values

unfoldable pub parse_kv : Text → Assoc Text
unfolding put_line
parse_kv contents = foldl put_line [] (lines contents)

-- `.map(|v| v.trim().to_string()).filter(|v| !v.is_empty())`
unfoldable pub non_blank : Option Text → Option Text
non_blank none = none
non_blank (some v) = if is_empty (trim v) then none else some (trim v)

unfoldable pub read_test_env : Option Text → Result Bool
read_test_env none = ok false
read_test_env (some v) =
    if eq_ignore_ascii_case v (codes "true")
    then ok true
    else if eq_ignore_ascii_case v (codes "false")
    then ok false
    else err "TEST_ENV must be true or false"

-- `mb * 1024 * 1024`, on `u64`.
limit_of : Option ℕ → Result (Option ℕ)
limit_of none = err "MEMORY_LIMIT_MB must be a positive integer"
limit_of (some mb) =
    if mb == 0
    then err "MEMORY_LIMIT_MB must be > 0"
    else ok (some (mb * 1024 % 2 ^ 64 * 1024 % 2 ^ 64))

unfoldable pub read_limit : Option Text → Result (Option ℕ)
unfolding limit_of parse_u64
read_limit none = ok none
read_limit (some v) = limit_of (parse_u64 v)

module _ {F : Type 0} (f : Float F) where
  unfoldable pub default_config : Config F
  default_config = record {
    test_env = false;
    cookie_name = none;
    user_id_url = none;
    user_id_json = none;
    memory_limit_bytes = none;
    memory_reject_pct = f.hundred;
  }

  pct_of : Option F → Result F
  pct_of none = err "MEMORY_REJECT_PCT must be a positive number"
  pct_of (some pct) = if f.gtb pct f.zero then ok pct else err "MEMORY_REJECT_PCT must be > 0"

  unfoldable pub read_pct : Option Text → Result F
  unfolding pct_of
  read_pct none = ok f.hundred
  read_pct (some v) = pct_of (f.parse v)

  unfoldable pub from_values : Assoc Text → Result (Config F)
  unfolding non_blank read_test_env read_limit read_pct
  from_values values = do
    test_env ← read_test_env (lookup (codes "TEST_ENV") values)
    limit ← read_limit (non_blank (lookup (codes "MEMORY_LIMIT_MB") values))
    pct ← read_pct (non_blank (lookup (codes "MEMORY_REJECT_PCT") values))
    ok (record {
      test_env = test_env;
      cookie_name = non_blank (lookup (codes "COOKIE_NAME") values);
      user_id_url = non_blank (lookup (codes "USER_ID_URL") values);
      user_id_json = non_blank (lookup (codes "USER_ID_JSON") values);
      memory_limit_bytes = limit;
      memory_reject_pct = pct;
    })

  unfoldable pub from_str : Text → Result (Config F)
  unfolding parse_kv from_values
  from_str contents = from_values (parse_kv contents)

  -- The file `cfg/stadhouder.conf`: none if it does not exist, else what reading it answers.
  unfoldable pub load : Option (Result Text) → Result (Config F)
  unfolding default_config from_str
  load none = ok default_config
  load (some read) = do contents ← read; from_str contents
