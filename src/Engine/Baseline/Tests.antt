-- ===== src/Engine/Baseline/Tests.antt =====
-- Runs of engine/baseline.py at small windows, and instances of its theorems.
use ai_quantum.Common.{ℕ, ◌≤◌, ◌<◌, ◌≡◌, ◌⊎◌, refl, true, false, List, [], ◌∷◌, ok, err, arith}
use ai_quantum.Common.Int.{ℤ, pos, negsuc}
use ai_quantum.Common.Text.{Text, codes, text_eq}
use ai_quantum.Common.Float.Exact.{bound, sixteenths}
use ai_quantum.Ingestion.Event.{TickDataEvent, borrow, supply}
use ai_quantum.Engine.Baseline.{
  high_not_above_low, borrow_supply_counts, count_loop, fragility_score,
}
use ai_quantum.Engine.Baseline.Score.{IsOrdered, fragility_score_range}

le_of_lt_sixteenths : (a b : ℤ) → sixteenths.lt a b ≡ true → sixteenths.le a b ≡ true
le_of_lt_sixteenths (pos m) (pos n) h = ground arith
le_of_lt_sixteenths (pos m) (negsuc n) h = ground arith
le_of_lt_sixteenths (negsuc m) (pos n) h = ground arith
le_of_lt_sixteenths (negsuc m) (negsuc n) h = ground arith

scale_sixteenths :
    (x : ℤ)
    → sixteenths.le (pos 0) x ≡ true
    → sixteenths.le x (pos 16) ≡ true
    → (sixteenths.le (pos 0) (sixteenths.mul x (pos 1600)) ≡ true)
      × (sixteenths.le (sixteenths.mul x (pos 1600)) (pos 1600) ≡ true)
scale_sixteenths (pos n) h k = (ground arith, ground arith)
scale_sixteenths (negsuc n) h k = (ground arith, ground arith)

of_ℕ-le_sixteenths :
    (m n : ℕ) → m ≤ n → n < bound → sixteenths.le (sixteenths.of_ℕ m) (sixteenths.of_ℕ n) ≡ true
of_ℕ-le_sixteenths m n h k = ground arith

abbrev ordered : IsOrdered ℤ
ordered = record {
  le_of_lt = le_of_lt_sixteenths;
  of_ℕ-le = of_ℕ-le_sixteenths;
  scale = scale_sixteenths;
}

abbrev event_of : Text → TickDataEvent
event_of t = record {
  block_number = 1;
  block_timestamp = codes "";
  protocol = codes "aave_v3";
  event_type = t;
  pool_address = codes "0xaa";
  token0 = codes "";
  token1 = codes "";
  amount0 = codes "1";
  amount1 = codes "0";
  tx_hash = codes "0xbb";
  log_index = 0;
}

abbrev window : List TickDataEvent
window = event_of borrow ∷ event_of supply ∷ event_of borrow ∷ event_of (codes "swap") ∷ []

two_borrows : borrow_supply_counts window ≡ (2, 1)
unfolding borrow_supply_counts count_loop text_eq borrow supply
two_borrows = refl

-- 24 borrows score 50, which is 800 sixteenths.
halfway : fragility_score (pos 384) (pos 256) (pos 512) ≡ ok (pos 800)
unfolding fragility_score
halfway = refl

no_range : fragility_score (pos 384) (pos 256) (pos 256) ≡ err high_not_above_low
unfolding fragility_score
no_range = refl

fragility_score_range_example :
    ((sixteenths.le (pos 512) (pos 256) ≡ true)
      × (fragility_score (pos 384) (pos 256) (pos 512) ≡ err high_not_above_low))
    ⊎ ((sixteenths.le (pos 512) (pos 256) ≡ false)
        × ((s : ℤ) × (fragility_score (pos 384) (pos 256) (pos 512) ≡ ok s)
            × (sixteenths.le (sixteenths.of_ℕ 0) s ≡ true)
            × (sixteenths.le s (sixteenths.of_ℕ 100) ≡ true)))
fragility_score_range_example = fragility_score_range ordered (pos 384) (pos 256) (pos 512)
