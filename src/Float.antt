-- ===== src/Float.antt =====
-- `f64`: a type `F` with the operations that the program uses.
use stadhouder.Base.{ℕ, Bool, Option, Text}
use stadhouder.Base.Int.{ℤ}

pub record Float (F : Type 0) : Type 0 where
  pub zero : F
  pub one : F
  pub hundred : F
  -- `as f64`
  pub of_i64 : ℤ → F
  pub of_u64 : ℕ → F
  -- `as i64` and `as u64`, which saturate
  pub to_i64 : F → ℤ
  pub to_u64 : F → ℕ
  pub mul : F → F → F
  pub div : F → F → F
  pub max : F → F → F
  -- `a > b` and `a >= b`; false where either is NaN
  pub gtb : F → F → Bool
  pub geb : F → F → Bool
  -- `parse::<f64>()`
  pub parse : Text → Option F
