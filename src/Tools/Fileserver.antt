-- ===== src/Tools/Fileserver.antt =====
-- tools/cgi-fileserver/src/main.rs: which program a request of /cgi-bin/ runs. The file system is a
-- pair of questions: the canonical form of a path, if there is one, and whether a file is there.
pub mod Resolve
pub mod Output
pub mod Environment
pub mod Handler
use stadhouder.Base.{
  ℕ, zero, suc, ◌/◌, ◌<◌, Bool, true, false, not, ◌&&◌, Option, none, some, List, [], ◌∷◌, ◌++◌,
  Text, codes, length, take, drop, filter, is_empty, ltb, ◌==◌, if◌then◌else◌, text_eq,
}
use stadhouder.Text.{split}
use stadhouder.Layout.{join}

abbrev pub cgi_extensions : List Text
cgi_extensions = [] ∷ codes ".exe" ∷ codes ".cmd" ∷ codes ".bat" ∷ codes ".com" ∷ []

-- The parts of a path between its slashes, the empty ones dropped.
unfoldable pub segments : Text → List Text
unfolding split
segments s = filter (λ p. not (is_empty p)) (split b'/' s)

-- `parts.join("/")`
unfoldable pub join_segments : List Text → Text
join_segments [] = []
join_segments (p ∷ []) = p
join_segments (p ∷ q ∷ ps) = p ++ b'/' ∷ join_segments (q ∷ ps)

is_absolute : Text → Bool
is_absolute [] = false
is_absolute (c ∷ s) = c == b'/'

abbrev pub is_prefix : List Text → List Text → Bool
is_prefix [] qs = true
is_prefix (p ∷ ps) [] = false
is_prefix (p ∷ ps) (q ∷ qs) = text_eq p q && is_prefix ps qs

-- The components of a path without `.` components, the root first.
unfoldable pub components : Text → List Text
unfolding segments is_absolute
components s = if is_absolute s then (b'/' ∷ []) ∷ segments s else segments s

-- `path.starts_with(dir)`
unfoldable pub is_within : Text → Text → Bool
unfolding components
is_within dir path = is_prefix (components dir) (components path)

-- What the file system answers.
pub record Paths : Type 0 where
  pub canonicalize : Text → Option Text
  pub is_file : Text → Bool

-- The file to run, the script's name in the request, and PATH_INFO.
pub record Script : Type 0 where
  pub file : Text
  pub name : Text
  pub path_info : Text

allowed : Paths → Text → Option Text → Option Text
allowed fs cgi_bin none = none
allowed fs cgi_bin (some canonical) =
    if is_within cgi_bin canonical && fs.is_file canonical then some canonical else none

-- One candidate: nothing outside of the cgi-bin directory, and no directory.
unfoldable pub candidate : Paths → Text → Text → Text → Option Text
unfolding join allowed
candidate fs cgi_bin candidate_rel ext =
    allowed fs cgi_bin (fs.canonicalize (join cgi_bin (candidate_rel ++ ext)))

-- The loop over the extensions.
unfoldable pub try_extensions : Paths → Text → Text → List Text → Option Text
unfolding candidate
try_extensions fs cgi_bin candidate_rel [] = none
try_extensions fs cgi_bin candidate_rel (ext ∷ exts) =
    let later = try_extensions fs cgi_bin candidate_rel exts in
    elim (candidate fs cgi_bin candidate_rel ext) [ some file ↦ some file | none ↦ later ]

-- `split < segments.len()`
unfoldable pub path_info_of : ℕ → List Text → Text
unfolding join_segments
path_info_of n parts = if ltb n (length parts) then b'/' ∷ join_segments (drop n parts) else []

-- The loop over the numbers of segments that name the script, from `n` downwards.
unfoldable pub try_splits : Paths → Text → List Text → ℕ → Option Script
unfolding try_extensions path_info_of join_segments
try_splits fs cgi_bin parts zero = none
try_splits fs cgi_bin parts (suc n) =
    let candidate_rel = join_segments (take (suc n) parts) in
    let shorter = try_splits fs cgi_bin parts n in
    elim (try_extensions fs cgi_bin candidate_rel cgi_extensions) [
      | some file ↦
          some
            (record { file = file; name = candidate_rel; path_info = path_info_of (suc n) parts })
      | none ↦ shorter
    ]

unfoldable pub resolve_cgi_script : Paths → Text → Text → Option Script
unfolding segments try_splits
resolve_cgi_script fs cgi_bin rest =
    let parts = segments rest in try_splits fs cgi_bin parts (length parts)
