-- ===== src/Request.antt =====
-- rust/backend/common/src/request.rs
use stadhouder.Base.{
  Bool, false, Option, none, some, ◌++◌, if◌then◌else◌, Text, codes, text_eq, Result, ok, or_fail,
  ◌>>=◌,
}
use stadhouder.Layout.{Env}

unfoldable pub build_url : Text → Text → Bool → Text → Text
build_url server_name server_port https path =
    (if https then codes "https" else codes "http")
    ++ (codes "://" ++ (server_name ++ (codes ":" ++ (server_port ++ path))))

is_on : Option Text → Bool
is_on none = false
is_on (some v) = text_eq v (codes "on")

unfoldable pub same_host_url : Env → Text → Result Text
unfolding build_url is_on
same_host_url env path = do
  server_name ← or_fail env.server_name "SERVER_NAME env var not set"
  server_port ← or_fail env.server_port "SERVER_PORT env var not set"
  ok (build_url server_name server_port (is_on env.https) path)
