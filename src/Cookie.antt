-- ===== src/Cookie.antt =====
-- rust/backend/common/src/cookie.rs
pub mod Header
use stadhouder.Base.{Bool, false, Option, none, some, any, Text, text_eq}
use stadhouder.Text.{split, split_once, trim}

-- Whether one `;` piece of the header is a cookie called `name`.
unfoldable pub names_cookie : Text → Text → Bool
unfolding split_once trim
names_cookie name pair = elim (split_once b'=' pair) [
  | none ↦ false
  | some (k, v) ↦ text_eq (trim k) name
]

unfoldable pub has_cookie : Option Text → Text → Bool
unfolding names_cookie split
has_cookie none name = false
has_cookie (some header_value) name = any (names_cookie name) (split b';' header_value)
