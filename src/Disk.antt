-- ===== src/Disk.antt =====
-- `std::fs` on the one directory stadhouder/state/: the names in it with the texts of the files, and
-- the names at which every operation is refused by the system.
pub mod Laws
use stadhouder.Base.{
  Bool, ◌||◌, Option, none, some, List, [], ◌∷◌, Text, any, Result, ok, err, or_fail, if◌then◌else◌,
  text_eq, Assoc, lookup, contains_key, insert, remove,
}

pub record Disk : Type 0 where
  pub files : Assoc Text
  pub denied : List Text

unfoldable pub is_denied : Text → Disk → Bool
is_denied name d = any (text_eq name) d.denied

-- `path.exists()`
unfoldable pub exists : Text → Disk → Bool
exists name d = contains_key name d.files

unfoldable pub read_to_string : Text → Disk → Result Text
unfolding is_denied
read_to_string name d =
    if is_denied name d
    then err "failed to read"
    else or_fail (lookup name d.files) "failed to read"

-- An operation that changes the directory returns it also where it fails.
unfoldable pub write : Text → Text → Disk → Result (Unit {0}) × Disk
unfolding is_denied
write name contents d =
    if is_denied name d
    then (err "failed to write", d)
    else (ok tt, record d { files = insert name contents d.files })

pub data Removal : Type 0 where
  removed not_found refused : Removal

unfoldable pub remove_file : Text → Disk → Removal × Disk
unfolding is_denied
remove_file name d =
    if contains_key name d.files
    then (if is_denied name d
        then (refused, d)
        else (removed, record d { files = remove name d.files }))
    else (not_found, d)

abbrev move : Text → Text → Option Text → Disk → Result (Unit {0}) × Disk
move from to none d = (err "failed to move", d)
move from to (some contents) d =
    (ok tt, record d { files = insert to contents (remove from d.files) })

unfoldable pub rename : Text → Text → Disk → Result (Unit {0}) × Disk
unfolding is_denied
rename from to d =
    if is_denied from d || is_denied to d
    then (err "failed to move", d)
    else move from to (lookup from d.files) d

-- The names in the directory.
abbrev pub names_in : Assoc Text → List Text
names_in [] = []
names_in ((name, contents) ∷ m) = name ∷ names_in m
