-- ===== src/Disk/Laws.antt =====
-- The operations on the directory where the system does not refuse them.
use stadhouder.Base.{
  holds, Assoc, contains_key, ◌≡◌, refl, [], ◌∷◌, true, false, arith, Text, ok, err, text_eq_iff,
  insert, remove, lookup-insert, contains_key-insert, contains_key-remove,
}
use stadhouder.Disk.{names_in, Disk, is_denied, exists, read_to_string, write, remove_file, rename}

-- The directory with one more file, or with new contents of it.
abbrev pub with_file : Text → Text → Disk → Disk
with_file name t d = record d { files = insert name t d.files }

pub write-allowed :
    (name t : Text) (d : Disk)
    → is_denied name d ≡ false
    → write name t d ≡ (ok tt, with_file name t d)
unfolding write
write-allowed name t d h = rw h refl

pub write-denied :
    (name t : Text) (d : Disk)
    → is_denied name d ≡ true
    → write name t d ≡ (err "failed to write", d)
unfolding write
write-denied name t d h = rw h refl

pub read_to_string-with_file :
    (name t : Text) (d : Disk)
    → is_denied name d ≡ false
    → read_to_string name (with_file name t d) ≡ ok t
unfolding read_to_string is_denied
read_to_string-with_file name t d h =
    rw (h, lookup-insert name name t d.files) (ground (arith, text_eq_iff name name))

pub exists-with_file : (name t : Text) (d : Disk) → exists name (with_file name t d) ≡ true
unfolding exists
exists-with_file name t d =
    rw (contains_key-insert name name t d.files) (ground (arith, text_eq_iff name name))

pub exists-remove_file :
    (name : Text) (d : Disk) → is_denied name d ≡ false → exists name (remove_file name d).1 ≡ false
unfolding exists remove_file
exists-remove_file name d h =
    ground (arith, h, contains_key-remove name name d.files, text_eq_iff name name)

pub rename-with_file :
    (from to t : Text) (d : Disk)
    → is_denied from d ≡ false
    → is_denied to d ≡ false
    → rename from to (with_file from t d)
      ≡ (ok tt, record d { files = insert to t (remove from (insert from t d.files)) })
unfolding rename is_denied
rename-with_file from to t d h k =
    rw (h, k, lookup-insert from from t d.files) (ground (arith, text_eq_iff from from))

pub holds-names_in : (name : Text) (m : Assoc Text) → holds (names_in m) name ≡ contains_key name m
unfolding contains_key
holds-names_in name [] = refl
holds-names_in name ((k, t) ∷ m) = ground (arith, holds-names_in name m)
