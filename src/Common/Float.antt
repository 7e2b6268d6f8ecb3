-- ===== src/Common/Float.antt =====
-- Python's `float`. The program does not implement it, so it is an interface: the operations that
-- the program calls, and, as separate records, the facts about IEEE arithmetic that a theorem
-- relies on. Comparisons are Boolean, and all of them are false at a NaN.
pub mod Exact
use ai_quantum.Common.Tests.{if◌then◌else◌}
use Prim.Native.Nat.{ℕ}
use mathlib.Core.Path.{◌≡◌}
use mathlib.Core.Bool.{Bool, true, ◌&&◌}

pub record Float (F : Type 0) : Type 0 where
  -- `float(n)`
  pub of_ℕ : ℕ → F
  pub add : F → F → F
  pub sub : F → F → F
  pub mul : F → F → F
  pub div : F → F → F
  pub lt : F → F → Bool
  pub le : F → F → Bool
  -- `round(x, 2)`
  pub round2 : F → F

module _ {F : Type 0} ⦃f : Float F⦄ where
  -- `min(a, b)` and `max(a, b)` return their first argument unless the second is beyond it.
  abbrev pub py_min : F → F → F
  py_min a b = if f.lt b a then b else a

  abbrev pub py_max : F → F → F
  py_max a b = if f.lt a b then b else a

  -- `x == 0.0`, which is false at a NaN.
  abbrev pub is_zero : F → Bool
  is_zero x = f.le x (f.of_ℕ 0) && f.le (f.of_ℕ 0) x
