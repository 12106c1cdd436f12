-- ===== src/Runtime/Names.antt =====
-- The connection ids that the scan finds are those whose profiles were saved.
use stadhouder.Base.{◌≡◌, refl, false, some, [], ◌∷◌, ◌++◌, arith, Text, codes, ◌==◌, All}
use stadhouder.Text.{replace}
use stadhouder.Text.Laws.{strip_prefix-append, strip_suffix-append}
use stadhouder.Layout.{underscore_uuid}
use stadhouder.State.{profile_name}
use stadhouder.Runtime.{connection_id_from_filename}

replace-back :
    (id : Text) → All (λ c. (c == b'_') ≡ false) id → replace b'_' b'-' (underscore_uuid id) ≡ id
unfolding replace underscore_uuid
replace-back [] h = refl
replace-back (c ∷ id) h = ground (arith, replace-back id h.1, h.0)

-- The name of a profile's file gives back the id of its connection, if the id has no underscore, as no
-- UUID has.
pub connection_id_from_filename-profile_name :
    (id : Text)
    → All (λ c. (c == b'_') ≡ false) id
    → connection_id_from_filename (profile_name id) ≡ some id
unfolding connection_id_from_filename profile_name
connection_id_from_filename-profile_name id h =
    rw
      (
        strip_prefix-append (codes "connection_") (underscore_uuid id ++ codes ".json"),
        strip_suffix-append (underscore_uuid id) (codes ".json"),
        replace-back id h,
      )
      refl
