-- ===== src/Emitter/Payload.antt =====
-- emitter/payload.py: the alert bands and the payload of an alert. The JSON Schema validator is a
-- parameter, `valid`.
pub mod Bands
use ai_quantum.Common.{ℕ, Bool, List, [], ◌∷◌, Option, none, some, if◌then◌else◌, Outcome, ok, err}
use ai_quantum.Common.Text.{Text}
use ai_quantum.Common.Float.{Float}

pub data AlertLevel : Type 0 where
  yellow red : AlertLevel

pub data AlertError : Type 0 where
  below_yellow : AlertError
  schema_violation : AlertError

pub record FragilityAlert (F : Type 0) : Type 0 where
  pub timestamp : Text
  pub fragility_score : F
  pub alert_level : AlertLevel
  pub trigger_protocols : List Text

-- `timestamp or _now_iso()`.
abbrev pub or_now : Option Text → Text → Text
or_now none now = now
or_now (some []) now = now
or_now (some (c ∷ s)) now = c ∷ s

module _ {F : Type 0} ⦃f : Float F⦄ where
  unfoldable pub alert_level : F → Option AlertLevel
  alert_level score =
      if f.le (f.of_ℕ 90) score
      then some red
      else if f.le (f.of_ℕ 70) score
      then some yellow
      else none

  unfoldable pub format_alert :
      (FragilityAlert F → Bool)
      → Text
      → F
      → List Text
      → Option Text
      → Outcome AlertError (FragilityAlert F)
  format_alert valid now score trigger_protocols timestamp =
      let rounded = f.round2 score in
      elim (alert_level rounded) [
        | none ↦ err below_yellow
        | some level ↦
            let payload : FragilityAlert F = record {
              timestamp = or_now timestamp now;
              fragility_score = rounded;
              alert_level = level;
              trigger_protocols = trigger_protocols;
            } in
            if valid payload then ok payload else err schema_violation
      ]
