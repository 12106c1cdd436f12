-- ===== src/Tests/Settings.antt =====
-- The theorems on configuration files and on the header of cookies, at concrete ones.
use stadhouder.Base.{
  true, ℕ, ◌≡◌, refl, false, none, some, [], ◌∷◌, arith, Text, codes, map, ok, contains_key, lookup,
  insert,
}
use stadhouder.Text.{trim, starts_with, lines, split_once}
use stadhouder.Text.Lines.{printed}
use stadhouder.Config.{from_str, from_values, Config, load}
use stadhouder.Config.Valid.{Valid, load-Valid}
use stadhouder.Cookie.{has_cookie}
use stadhouder.Cookie.Header.{IsCookie, has_cookie-header}
use stadhouder.Config.Printed.{IsSetting, line, from_str-printed}
use stadhouder.Tests.{naturals}

abbrev cookie : Text × Text
cookie = (codes "COOKIE_NAME", codes "s id")

abbrev limit : Text × Text
limit = (codes "MEMORY_LIMIT_MB", codes "5")

cookie-IsSetting : IsSetting cookie
unfolding trim starts_with
cookie-IsSetting = record {
  key_trimmed = refl;
  value_trimmed = refl;
  line_trimmed = refl;
  no_sign = ground arith;
  no_comment = refl;
  inner = ground arith;
}

limit-IsSetting : IsSetting limit
unfolding trim starts_with
limit-IsSetting = record {
  key_trimmed = refl;
  value_trimmed = refl;
  line_trimmed = refl;
  no_sign = ground arith;
  no_comment = refl;
  inner = ground arith;
}

from_str-printed_example :
    from_str naturals (printed (map line (cookie ∷ limit ∷ [])))
    ≡ ok (record {
      test_env = false;
      cookie_name = some (codes "s id");
      user_id_url = none;
      user_id_json = none;
      memory_limit_bytes = some 5242880;
      memory_reject_pct = naturals.hundred;
    })
unfolding from_values lookup contains_key trim
from_str-printed_example =
    from_str-printed naturals (cookie ∷ limit ∷ []) (cookie-IsSetting, (limit-IsSetting, tt))
      (refl, (refl, tt))

abbrev padded : Text
padded = codes "COOKIE_NAME =  sid \nMEMORY_LIMIT_MB= 5\n"

abbrev padded_config : Config ℕ
padded_config = record {
  test_env = false;
  cookie_name = some (codes "sid");
  user_id_url = none;
  user_id_json = none;
  memory_limit_bytes = some 5242880;
  memory_reject_pct = naturals.hundred;
}

padded_config-read : load naturals (some (ok padded)) ≡ ok padded_config
unfolding load lines trim starts_with split_once insert lookup
padded_config-read = refl

load-Valid_example : Valid naturals padded_config
load-Valid_example = load-Valid naturals refl (some (ok padded)) padded_config padded_config-read

abbrev longer_name : Text × Text
longer_name = (codes "sid2", codes "a=sid")

abbrev session : Text × Text
session = (codes "sid", codes "x y")

longer_name-IsCookie : IsCookie longer_name
unfolding trim
longer_name-IsCookie = record { trimmed = refl; no_sign = omega arith; no_semicolon = omega arith }

session-IsCookie : IsCookie session
unfolding trim
session-IsCookie = record { trimmed = refl; no_sign = omega arith; no_semicolon = omega arith }

has_cookie-header_example : has_cookie (some (codes "sid2=a=sid; sid=x y")) (codes "sid") ≡ true
has_cookie-header_example =
    has_cookie-header (longer_name ∷ session ∷ []) (codes "sid")
      (longer_name-IsCookie, (session-IsCookie, tt))
