-- ===== src/Engine/Baseline/Score.antt =====
-- The range of the score, and the score of a count of borrows.
use ai_quantum.Common.{
  ℕ, ◌+◌, ◌-◌, ◌*◌, ◌<◌, ◌≤◌, ◌≡◌, ◌∙◌, ap, ◌⊎◌, inl, inr, Bool-cases, true, false, List, [], ◌∷◌,
  min, arith, ok, err, ltb,
}
use ai_quantum.Common.Int.{pos, sub_ℕ}
use ai_quantum.Common.Text.{text_eq}
use ai_quantum.Common.Float.{Float, py_min, py_max}
use ai_quantum.Common.Float.Exact.{IsExact, bound}
use ai_quantum.Ingestion.Event.{TickDataEvent, borrow, supply}
use ai_quantum.Engine.Baseline.{
  high_not_above_low, borrow_activity, borrow_supply_counts, count_loop, fragility_score, score_low,
  score_high,
}

-- What the range of the score rests on. Each is true of doubles, NaN included: a comparison with a
-- NaN is false, so no premise speaks of one.
pub record IsOrdered (F : Type 0) ⦃f : Float F⦄ : Type 0 where
  pub le_of_lt : (a b : F) → f.lt a b ≡ true → f.le a b ≡ true
  pub of_ℕ-le : (m n : ℕ) → m ≤ n → n < bound → f.le (f.of_ℕ m) (f.of_ℕ n) ≡ true
  pub scale :
      (x : F)
      → f.le (f.of_ℕ 0) x ≡ true
      → f.le x (f.of_ℕ 1) ≡ true
      → (f.le (f.of_ℕ 0) (f.mul x (f.of_ℕ 100)) ≡ true)
        × (f.le (f.mul x (f.of_ℕ 100)) (f.of_ℕ 100) ≡ true)

module _ {F : Type 0} ⦃f : Float F⦄ (o : IsOrdered F) where
  clamp_range :
      (x : F)
      → let y = py_max (f.of_ℕ 0) (py_min (f.of_ℕ 1) x) in
        (f.le (f.of_ℕ 0) y ≡ true) × (f.le y (f.of_ℕ 1) ≡ true)
  clamp_range x = ground (
    arith,
    o.le_of_lt x (f.of_ℕ 1),
    o.le_of_lt (f.of_ℕ 0) x,
    o.le_of_lt (f.of_ℕ 0) (f.of_ℕ 1),
    o.of_ℕ-le 0 0,
    o.of_ℕ-le 0 1,
    o.of_ℕ-le 1 1,
  )

  -- Whatever the rate, a NaN or an infinity included, the score lies in [0, 100]; the call raises
  -- exactly if `high <= low`.
  pub fragility_score_range :
      (rate low high : F)
      → ((f.le high low ≡ true) × (fragility_score rate low high ≡ err high_not_above_low))
        ⊎ ((f.le high low ≡ false)
            × ((s : F) × (fragility_score rate low high ≡ ok s)
                × (f.le (f.of_ℕ 0) s ≡ true)
                × (f.le s (f.of_ℕ 100) ≡ true)))
  unfolding fragility_score
  fragility_score_range rate low high = elim (Bool-cases (f.le high low)) [
    | inl bad ↦ inl (bad, rw bad)
    | inr good ↦
        let x = f.div (f.sub rate low) (f.sub high low) in
        let (lo, hi) = clamp_range x in
        let (p, q) = o.scale (py_max (f.of_ℕ 0) (py_min (f.of_ℕ 1) x)) lo hi in
        inr (good, (f.mul (py_max (f.of_ℕ 0) (py_min (f.of_ℕ 1) x)) (f.of_ℕ 100), rw good, p, q))
  ]

count_loop-borrow :
    (es : List TickDataEvent) (b s : ℕ) → (count_loop (b, s) es).0 ≡ b + borrow_activity es
unfolding count_loop borrow_activity
count_loop-borrow [] b s = omega arith
count_loop-borrow (e ∷ es) b s = elim (Bool-cases (text_eq e.event_type borrow)) [
  | inl is_borrow ↦ rw is_borrow (omega (arith, count_loop-borrow es (b + 1) s))
  | inr other ↦ elim (Bool-cases (text_eq e.event_type supply)) [
    | inl is_supply ↦ rw (other, is_supply) (omega (arith, count_loop-borrow es b (s + 1)))
    | inr neither ↦ rw (other, neither) (omega (arith, count_loop-borrow es b s))
  ]
]

-- The first count of the loop is `borrow_activity`.
pub borrow_supply_counts-borrow :
    (es : List TickDataEvent) → (borrow_supply_counts es).0 ≡ borrow_activity es
unfolding borrow_supply_counts
borrow_supply_counts-borrow es = omega (arith, count_loop-borrow es 0 0)

module _ {F : Type 0} ⦃f : Float F⦄ (x : IsExact F) where
  quotient :
      (n : ℕ)
      → n < bound
      → f.div (f.sub (f.of_ℕ n) (f.of_ℕ 16)) (f.sub (f.of_ℕ 32) (f.of_ℕ 16)) ≡ x.at (sub_ℕ n 16)
  quotient n h =
      rw (x.of_ℕ-at n h, x.of_ℕ-at 16 (omega arith), x.of_ℕ-at 32 (omega arith))
        (rw (x.sub-at n 16 h (omega arith), x.sub-at 32 16 (omega arith) (omega arith))
          (x.div-at (sub_ℕ n 16) (ground arith) (ground arith)))

  -- The tests of the clamp, on the count.
  below_one : (n : ℕ) → n < bound → f.lt (x.at (sub_ℕ n 16)) (f.of_ℕ 1) ≡ ltb n 32
  below_one n h = rw (x.of_ℕ-at 1 (omega arith)) (
      x.lt-at (sub_ℕ n 16) (pos 16) (ground arith) (ground arith) (omega arith) (omega arith)
      ∙ ground arith)

  above_zero : (n : ℕ) → n < bound → f.lt (f.of_ℕ 0) (x.at (sub_ℕ n 16)) ≡ ltb 16 n
  above_zero n h = rw (x.of_ℕ-at 0 (omega arith)) (
      x.lt-at (pos 0) (sub_ℕ n 16) (omega arith) (omega arith) (ground arith) (ground arith)
      ∙ ground arith)

  zero_below_one : f.lt (f.of_ℕ 0) (f.of_ℕ 1) ≡ true
  zero_below_one =
      rw (x.of_ℕ-at 0 (omega arith), x.of_ℕ-at 1 (omega arith))
        (x.lt-at (pos 0) (pos 16) (omega arith) (omega arith) (omega arith) (omega arith))

  clamp :
      (n : ℕ)
      → n < bound
      → py_max (f.of_ℕ 0) (py_min (f.of_ℕ 1) (x.at (sub_ℕ n 16))) ≡ x.at (pos (min 16 (n - 16)))
  clamp n h = elim (Bool-cases (ltb n 32)) [
    | inl below ↦
        rw (below_one n h, below)
          (rw (above_zero n h) (elim (Bool-cases (ltb 16 n)) [
            | inl above ↦ rw above (ap x.at (ground arith))
            | inr under ↦ rw under (x.of_ℕ-at 0 (omega arith) ∙ ap x.at (ground arith))
          ]))
    | inr past ↦
        rw (below_one n h, past)
          (rw zero_below_one (x.of_ℕ-at 1 (omega arith) ∙ ap x.at (ground arith)))
  ]

  bounds_apart : f.le (f.of_ℕ 32) (f.of_ℕ 16) ≡ false
  bounds_apart =
      rw (x.of_ℕ-at 32 (omega arith), x.of_ℕ-at 16 (omega arith))
        (x.le-at (pos 512) (pos 256) (omega arith) (omega arith) (omega arith) (omega arith))

  -- With the calibrated bounds the score of `n` borrows is 6.25 for each borrow past the sixteenth,
  -- at most 100 (100/16 is 6.25).
  pub fragility_score-count :
      (n : ℕ)
      → n < bound
      → fragility_score (f.of_ℕ n) (f.of_ℕ score_low) (f.of_ℕ score_high)
        ≡ ok (x.at (pos (100 * min 16 (n - 16))))
  unfolding fragility_score
  fragility_score-count n h =
      rw (bounds_apart, quotient n h)
        (rw (clamp n h) (
          ap ok (
            ap (f.mul (x.at (pos (min 16 (n - 16))))) (x.of_ℕ-at 100 (omega arith))
            ∙ x.mul-at (min 16 (n - 16)) (omega arith))))
