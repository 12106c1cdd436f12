-- ===== src/Config/Laws.antt =====
-- The memory limit in bytes.
use stadhouder.Base.{ℕ, ◌≡◌, ◌≢◌, ◌<◌, ◌+◌, ◌*◌, ◌^◌, ◌%◌, refl, some, arith, Text, ok}
use stadhouder.Text.{parse_u64}
use stadhouder.Config.{read_limit, limit_of}

limit_of-ok :
    (mb : ℕ) → mb ≢ 0 → limit_of (some mb) ≡ ok (some (mb * 1024 % 2 ^ 64 * 1024 % 2 ^ 64))
unfolding limit_of
limit_of-ok mb h = ground arith

-- A limit below 2^44 megabytes is taken as that many bytes.
pub read_limit_exact :
    (v : Text) (mb : ℕ)
    → parse_u64 v ≡ some mb
    → mb ≢ 0
    → mb < 2 ^ 44
    → read_limit (some v) ≡ ok (some (mb * 1048576))
unfolding read_limit
read_limit_exact v mb e h k = rw (e, limit_of-ok mb h, small) refl
  where
    small : mb * 1024 % 2 ^ 64 * 1024 % 2 ^ 64 ≡ mb * 1048576
    small = omega arith

-- A larger one wraps around: 2^44 megabytes and `r` more are taken as `r` megabytes, and exactly 2^44
-- as no byte at all.
pub read_limit_wraps :
    (v : Text) (r : ℕ)
    → parse_u64 v ≡ some (2 ^ 44 + r)
    → r < 2 ^ 44
    → read_limit (some v) ≡ ok (some (r * 1048576))
unfolding read_limit
read_limit_wraps v r e k = rw (e, limit_of-ok (2 ^ 44 + r) (λ z. omega arith), wrapped) refl
  where
    wrapped : (2 ^ 44 + r) * 1024 % 2 ^ 64 * 1024 % 2 ^ 64 ≡ r * 1048576
    wrapped = omega arith
