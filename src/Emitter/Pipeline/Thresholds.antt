-- ===== src/Emitter/Pipeline/Thresholds.antt =====
-- The alert that a window of events raises, by the number of its borrow events.
use ai_quantum.Common.{
  ℕ, ◌-◌, ◌*◌, ◌<◌, ◌≡◌, refl, sym, ◌∙◌, ap₂, Bool, List, Option, none, some, min, arith, Outcome,
  ok, err, ltb, leb, if◌then◌else◌, Bool-cases, inl, inr,
}
use mathlib.Core.Path.{subst}
use ai_quantum.Common.Int.{pos}
use ai_quantum.Common.Text.{Text}
use ai_quantum.Common.Float.{Float}
use ai_quantum.Common.Float.Exact.{IsExact, bound}
use ai_quantum.Ingestion.Event.{TickDataEvent}
use ai_quantum.Engine.Baseline.{borrow_activity}
use ai_quantum.Engine.Baseline.Score.{fragility_score-count}
use ai_quantum.Emitter.Payload.{
  AlertLevel, yellow, red, schema_violation, FragilityAlert, or_now, alert_level, format_alert,
}
use ai_quantum.Emitter.Webhook.{Post, emit}
use ai_quantum.Emitter.Pipeline.{
  Evaluation, PipelineError, bad_alert, default_retries, send, evaluate_and_emit,
}

-- YELLOW from 28 borrows, RED from 31.
abbrev pub level_of_count : ℕ → Option AlertLevel
level_of_count n = if ltb n 28 then none else some (if ltb n 31 then yellow else red)

module _ {F : Type 0} ⦃f : Float F⦄ (x : IsExact F) where
  -- 6.25 for each borrow past the sixteenth, at most 100.
  abbrev pub count_score : ℕ → F
  count_score n = x.at (pos (100 * min 16 (n - 16)))

  at_least :
      (m n : ℕ) → m < 1000 → f.le (f.of_ℕ m) (count_score n) ≡ leb (16 * m) (100 * min 16 (n - 16))
  at_least m n h = rw (x.of_ℕ-at m (omega arith)) (
      x.le-at (pos (16 * m)) (pos (100 * min 16 (n - 16))) (omega arith) (omega arith) (omega arith)
        (omega arith)
      ∙ ap₂ leb (omega arith) (omega arith))

  pub alert_level-count : (n : ℕ) → alert_level (count_score n) ≡ level_of_count n
  unfolding alert_level
  alert_level-count n = rw (at_least 90 n (omega arith), at_least 70 n (omega arith)) (ground arith)

  round2-count : (n : ℕ) → f.round2 (count_score n) ≡ count_score n
  round2-count n =
      let e : 100 * min 16 (n - 16) ≡ 4 * (25 * min 16 (n - 16)) = omega arith in
      subst (λ (k : ℕ). f.round2 (x.at (pos k)) ≡ x.at (pos k)) (sym e)
        (x.round2-at (25 * min 16 (n - 16)) (omega arith))

  abbrev pub count_alert : ℕ → AlertLevel → List Text → Option Text → Text → FragilityAlert F
  count_alert n level triggers timestamp now = record {
    timestamp = or_now timestamp now;
    fragility_score = count_score n;
    alert_level = level;
    trigger_protocols = triggers;
  }

  -- What `evaluate_and_emit` returns on a window with `n` borrow events.
  abbrev pub expected :
      (FragilityAlert F → Bool)
      → Text
      → (Text → ℕ → ℕ → Post)
      → ℕ
      → List Text
      → List Text
      → Option Text
      → Option AlertLevel
      → Outcome PipelineError (Evaluation F)
  expected valid now post n subscribers triggers timestamp none =
      ok (record { score = count_score n; level = none; sent = none })
  expected valid now post n subscribers triggers timestamp (some level) =
      if valid (count_alert n level triggers timestamp now)
      then ok (record {
        score = count_score n;
        level = some level;
        sent =
            some
              (count_alert n level triggers timestamp now, emit post default_retries subscribers);
      })
      else err (bad_alert schema_violation)

  format_alert-count :
      (valid : FragilityAlert F → Bool) (now : Text) (n : ℕ) (triggers : List Text)
      (timestamp : Option Text) (level : AlertLevel)
      → alert_level (count_score n) ≡ some level
      → format_alert valid now (count_score n) triggers timestamp ≡ (
          if valid (count_alert n level triggers timestamp now)
          then ok (count_alert n level triggers timestamp now)
          else err schema_violation)
  unfolding format_alert
  format_alert-count valid now n triggers timestamp level e =
      rw (round2-count n, e, format_alert) (rw (round2-count n))

  send-expected :
      (valid : FragilityAlert F → Bool) (now : Text) (post : Text → ℕ → ℕ → Post) (n : ℕ)
      (subscribers triggers : List Text) (timestamp : Option Text) (level : Option AlertLevel)
      → alert_level (count_score n) ≡ level
      → send valid now post (count_score n) subscribers triggers timestamp level
        ≡ expected valid now post n subscribers triggers timestamp level
  send-expected valid now post n subscribers triggers timestamp none e = refl
  send-expected valid now post n subscribers triggers timestamp (some level) e =
      rw (format_alert-count valid now n triggers timestamp level e, send)
        (elim (Bool-cases (valid (count_alert n level triggers timestamp now))) [
          | inl is_valid ↦ rw is_valid
          | inr not_valid ↦ rw not_valid
        ])

  -- On a window of fewer than 2^40 borrow events the result depends on their number `n` alone:
  -- below 28 nothing is sent; from 28 to 30 a YELLOW and from 31 a RED payload goes to every
  -- subscriber, and the payload has the returned score and level; the call raises only if the
  -- validator refuses that payload.
  pub evaluate_by_count :
      (valid : FragilityAlert F → Bool) (now : Text) (post : Text → ℕ → ℕ → Post)
      (events : List TickDataEvent) (subscribers triggers : List Text) (timestamp : Option Text)
      → borrow_activity events < bound
      → evaluate_and_emit valid now post events subscribers triggers timestamp
        ≡ expected valid now post
            (borrow_activity events)
            subscribers
            triggers
            timestamp
            (level_of_count (borrow_activity events))
  unfolding evaluate_and_emit
  evaluate_by_count valid now post events subscribers triggers timestamp h =
      rw (fragility_score-count x (borrow_activity events) h) (
        rw (alert_level-count (borrow_activity events)) (
          send-expected valid now post (borrow_activity events) subscribers triggers timestamp
            (level_of_count (borrow_activity events)) (alert_level-count (borrow_activity events))))
