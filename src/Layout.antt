-- ===== src/Layout.antt =====
-- rust/backend/common/src/layout.rs, and the environment variables that a process reads.
use mathlib.Core.List.{reverse}
use stadhouder.Base.{
  Option, none, some, [], ◌∷◌, ◌++◌, ◌==◌, if◌then◌else◌, Text, codes, Result, ok, or_fail, ◌>>=◌,
}
use stadhouder.Text.{replace}

-- The variables of the process's environment.
pub record Env : Type 0 where
  pub document_root : Option Text
  pub server_name : Option Text
  pub server_port : Option Text
  pub https : Option Text

skip_slashes : Text → Text
skip_slashes [] = []
skip_slashes (c ∷ s) = if c == b'/' then skip_slashes s else c ∷ s

skip_name : Text → Text
skip_name [] = []
skip_name (c ∷ s) = if c == b'/' then c ∷ s else skip_name s

-- What is left of a path, read backwards, once its last name is taken off.
parent_of : Text → Option Text
parent_of [] = some []
parent_of (c ∷ s) = elim (skip_slashes (c ∷ s)) [
  | [] ↦ some (codes "/")
  | d ∷ r ↦ some (reverse (d ∷ r))
]

-- `Path::parent`, for paths with no `.` component.
unfoldable pub parent : Text → Option Text
unfolding skip_slashes skip_name parent_of
parent s = elim (skip_slashes (reverse s)) [ [] ↦ none | c ∷ r ↦ parent_of (skip_name (c ∷ r)) ]

-- `Path::join` with a relative name.
unfoldable pub join : Text → Text → Text
join dir name = elim (reverse dir) [
  | [] ↦ name
  | c ∷ r ↦ if c == b'/' then dir ++ name else dir ++ b'/' ∷ name
]

unfoldable pub home_dir : Env → Result Text
unfolding parent
home_dir env = do
  doc_root ← or_fail env.document_root "DOCUMENT_ROOT env var not set"
  or_fail (parent doc_root) "could not determine parent of DOCUMENT_ROOT"

unfoldable pub stadhouder_dir : Env → Result Text
unfolding home_dir join
stadhouder_dir env = do home ← home_dir env; ok (join home (codes "stadhouder"))

unfoldable pub underscore_uuid : Text → Text
unfolding replace
underscore_uuid connection_id = replace b'-' b'_' connection_id
