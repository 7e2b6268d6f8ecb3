-- ===== src/Ingestion/Reconnect.antt =====
-- ingestion/reconnect.py: `auto_reconnect`. What the wrapped coroutine does on each attempt is the
-- environment's. `base` and `cap` are floats; `of_ℕ (2 ^ attempt)` is the conversion of the integer
-- 2**attempt, which raises from 2**1024 on. A negative `max_retries` acts as 0 does.
pub mod Attempts
mod Tests
use ai_quantum.Common.{
  ℕ, zero, suc, ◌+◌, ◌^◌, Bool, true, false, List, [], ◌∷◌, ◌++◌, Option, none, some, ltb, leb,
  if◌then◌else◌,
}
use ai_quantum.Common.Float.{Float, py_min}

-- One call of the wrapped coroutine.
pub data Attempt (A : Type 0) : Type 0 where
  returns : A → Attempt A
  -- One of `_RECONNECT_EXCEPTIONS`.
  connection_error : Attempt A
  -- Any other exception, which the wrapper does not catch.
  other_error : Attempt A

-- What the wrapper does in the end. `unfinished` stands for a loop cut off by the fuel.
pub data Result (A : Type 0) : Type 0 where
  returned : A → Result A
  raised_connection : Result A
  raised_other : Result A
  -- `base * (2**attempt)` converts the integer 2**attempt to a float, which raises
  -- `OverflowError` from 2**1024 on.
  raised_overflow : Result A
  unfinished : Result A

abbrev pub float_exponent_limit : ℕ
float_exponent_limit = 1024

-- `max_retries is not None and attempt >= max_retries`.
abbrev pub exhausted : Option ℕ → ℕ → Bool
exhausted none attempt = false
exhausted (some n) attempt = leb n attempt

module _ {A F : Type 0} ⦃f : Float F⦄ (max_retries : Option ℕ) (base cap : F)
    (call : ℕ → Attempt A) where
  abbrev pub delay : ℕ → F
  delay attempt = py_min (f.mul base (f.of_ℕ (2 ^ attempt))) cap

  -- The loop from an attempt on, with the delays slept so far. The overflow ends it at the latest
  -- after `float_exponent_limit` attempts, so that much fuel suffices.
  unfoldable pub loop : ℕ → ℕ → List F → Result A × List F
  loop zero attempt slept = (unfinished, slept)
  loop (suc fuel) attempt slept = elim (call attempt) [
    | returns a ↦ (returned a, slept)
    | other_error ↦ (raised_other, slept)
    | connection_error ↦ elim (exhausted max_retries attempt) [
      | true ↦ (raised_connection, slept)
      | false ↦ elim (ltb attempt float_exponent_limit) [
        | true ↦ loop fuel (attempt + 1) (slept ++ delay attempt ∷ [])
        | false ↦ (raised_overflow, slept)
      ]
    ]
  ]

  unfoldable pub wrapper : Result A × List F
  unfolding loop
  wrapper = loop (suc float_exponent_limit) 0 []
