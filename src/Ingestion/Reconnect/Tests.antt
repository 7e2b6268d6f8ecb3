-- ===== src/Ingestion/Reconnect/Tests.antt =====
-- Runs of `auto_reconnect`, and an instance of its theorem.
use ai_quantum.Common.{ℕ, ◌^◌, ◌≡◌, refl, [], ◌∷◌, none, some, tabulate, if◌then◌else◌, ltb}
use ai_quantum.Common.Int.{pos}
use ai_quantum.Common.Float.{py_min}
use ai_quantum.Common.Float.Exact.{sixteenths}
use ai_quantum.Ingestion.Reconnect.{
  Attempt, returns, connection_error, returned, raised_connection, wrapper,
}
use ai_quantum.Ingestion.Reconnect.Attempts.{Stops, EndsWith, wrapper_lem}

-- Three connection errors, then an answer.
abbrev flaky : ℕ → Attempt ℕ
flaky k = if ltb k 3 then connection_error else returns k

-- From half a second, at most one: in sixteenths, as is every float here.
backs_off : wrapper none (pos 8) (pos 16) flaky ≡ (returned 3, pos 8 ∷ pos 16 ∷ pos 16 ∷ [])
unfolding wrapper
backs_off = refl

gives_up : wrapper (some 2) (pos 8) (pos 16) flaky ≡ (raised_connection, pos 8 ∷ pos 16 ∷ [])
unfolding wrapper
gives_up = refl

wrapper_lem_example :
    (k : ℕ) × Stops (some 2) flaky k
    × EndsWith (some 2) k (flaky k) (wrapper (some 2) (pos 8) (pos 480) flaky).0
    × ((wrapper (some 2) (pos 8) (pos 480) flaky).1
        ≡ tabulate k (λ i. py_min (sixteenths.mul (pos 8) (sixteenths.of_ℕ (2 ^ i))) (pos 480)))
wrapper_lem_example = wrapper_lem (some 2) (pos 8) (pos 480) flaky
