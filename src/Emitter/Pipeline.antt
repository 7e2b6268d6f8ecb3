-- ===== src/Emitter/Pipeline.antt =====
-- emitter/pipeline.py: score a window of events, and send an alert if the score reaches a band.
pub mod Thresholds
use ai_quantum.Common.{ℕ, Bool, List, Option, none, some, Outcome, ok, err, ◌>>=◌}
use ai_quantum.Common.Text.{Text}
use ai_quantum.Common.Float.{Float}
use ai_quantum.Ingestion.Event.{TickDataEvent}
use ai_quantum.Engine.Baseline
use ai_quantum.Engine.Baseline.{borrow_activity, fragility_score, score_low, score_high}
use ai_quantum.Emitter.Payload.{AlertLevel, AlertError, FragilityAlert, alert_level, format_alert}
use ai_quantum.Emitter.Webhook.{Post, emit}

pub data PipelineError : Type 0 where
  bad_bounds : Baseline.ValueError → PipelineError
  bad_alert : AlertError → PipelineError

-- The score, the level, and for an alert the payload that was sent and what came of each delivery.
pub record Evaluation (F : Type 0) : Type 0 where
  pub score : F
  pub level : Option AlertLevel
  pub sent : Option (FragilityAlert F × List (Text × Bool))

abbrev pub lift_score : {A : Type 0} → Outcome Baseline.ValueError A → Outcome PipelineError A
lift_score (ok a) = ok a
lift_score (err e) = err (bad_bounds e)

abbrev pub lift_alert : {A : Type 0} → Outcome AlertError A → Outcome PipelineError A
lift_alert (ok a) = ok a
lift_alert (err e) = err (bad_alert e)

-- The call of `emit` leaves its `retries` at 1.
abbrev pub default_retries : ℕ
default_retries = 1

module _ {F : Type 0} ⦃f : Float F⦄ (valid : FragilityAlert F → Bool) (now : Text)
    (post : Text → ℕ → ℕ → Post) where
  abbrev send :
      F
      → List Text
      → List Text
      → Option Text
      → Option AlertLevel
      → Outcome PipelineError (Evaluation F)
  send score subscribers triggers timestamp none =
      ok (record { score = score; level = none; sent = none })
  send score subscribers triggers timestamp (some level) = do
    payload ← lift_alert (format_alert valid now score triggers timestamp)
    ok (record {
      score = score;
      level = some level;
      sent = some (payload, emit post default_retries subscribers);
    })

  unfoldable pub evaluate_and_emit :
      List TickDataEvent
      → List Text
      → List Text
      → Option Text
      → Outcome PipelineError (Evaluation F)
  evaluate_and_emit events subscribers triggers timestamp = do
    score ←
        lift_score
          (fragility_score (f.of_ℕ (borrow_activity events)) (f.of_ℕ score_low) (f.of_ℕ score_high))
    send score subscribers triggers timestamp (alert_level score)
