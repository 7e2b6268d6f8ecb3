-- ===== src/Engine/Baseline.antt =====
-- engine/baseline.py: counts of event types over a window, and the score of a borrow rate.
pub mod Score
mod Tests
use ai_quantum.Common.{ℕ, ◌+◌, List, [], ◌∷◌, if◌then◌else◌, Outcome, ok, err}
use ai_quantum.Common.Text.{Text, text_eq}
use ai_quantum.Common.Float.{Float, py_min, py_max}
use ai_quantum.Ingestion.Event.{TickDataEvent, borrow, supply}

-- The loop, with its two counters.
count_loop : ℕ × ℕ → List TickDataEvent → ℕ × ℕ
count_loop (b, s) [] = (b, s)
count_loop (b, s) (e ∷ es) =
    count_loop
      (if text_eq e.event_type borrow
        then (b + 1, s)
        else if text_eq e.event_type supply
        then (b, s + 1)
        else (b, s))
      es

pub borrow_supply_counts : List TickDataEvent → ℕ × ℕ
borrow_supply_counts es = count_loop (0, 0) es

unfoldable pub borrow_activity : List TickDataEvent → ℕ
borrow_activity [] = 0
borrow_activity (e ∷ es) = (if text_eq e.event_type borrow then 1 else 0) + borrow_activity es

abbrev pub score_low : ℕ
score_low = 16

abbrev pub score_high : ℕ
score_high = 32

pub data ValueError : Type 0 where
  high_not_above_low : ValueError

module _ {F : Type 0} ⦃f : Float F⦄ where
  pub utilization_ratio : List TickDataEvent → F
  utilization_ratio es = let (b, s) = borrow_supply_counts es in f.div (f.of_ℕ b) (f.of_ℕ (s + 1))

  unfoldable pub fragility_score : F → F → F → Outcome ValueError F
  fragility_score borrow_rate low high =
      if f.le high low
      then err high_not_above_low
      else ok (
          f.mul
            (py_max (f.of_ℕ 0) (py_min (f.of_ℕ 1) (f.div (f.sub borrow_rate low) (f.sub high low))))
            (f.of_ℕ 100))
