-- ===== src/Heartbeat.antt =====
-- rust/backend/common/src/heartbeat.rs
use stadhouder.Base.{Bool, true, [], ◌∷◌, Text, codes, is_some}
use stadhouder.Json.{Json}

abbrev pub heartbeat_key : Text
heartbeat_key = codes "stadhouder_heartbeat"

module _ {V : Type 0} (j : Json V) where
  unfoldable pub message : V
  message = j.object ((heartbeat_key, j.bool true) ∷ [])

  unfoldable pub is_heartbeat : V → Bool
  is_heartbeat m = is_some (j.get m heartbeat_key)
