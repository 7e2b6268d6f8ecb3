-- ===== src/Emitter/Payload/Bands.antt =====
-- A payload's level is the band of the score that it carries.
use ai_quantum.Common.{
  ◌≡◌, Bool, true, false, List, Option, some, arith, Option-cases, inl, inr, ok,
}
use ai_quantum.Common.Text.{Text}
use ai_quantum.Common.Float.{Float}
use ai_quantum.Emitter.Payload.{AlertLevel, yellow, red, FragilityAlert, alert_level, format_alert}

-- The bands of the schema: YELLOW from 70 up to 90, RED from 90.
abbrev pub InBand : {F : Type 0} ⦃f : Float F⦄ → AlertLevel → F → Type 0
InBand ⦃f⦄ yellow s = (f.le (f.of_ℕ 70) s ≡ true) × (f.le (f.of_ℕ 90) s ≡ false)
InBand ⦃f⦄ red s = f.le (f.of_ℕ 90) s ≡ true

module _ {F : Type 0} ⦃f : Float F⦄ where
  InBand-alert_level : (s : F) (l : AlertLevel) → alert_level s ≡ some l → InBand l s
  unfolding alert_level
  InBand-alert_level s yellow h = ground arith
  InBand-alert_level s red h = ground arith

  -- A payload that is returned was accepted by the validator, carries the rounded score and the
  -- protocols of the call, and its level is the band in which that rounded score lies.
  pub format_alert-InBand :
      (valid : FragilityAlert F → Bool) (now : Text) (score : F) (ps : List Text) (ts : Option Text)
      (p : FragilityAlert F)
      → format_alert valid now score ps ts ≡ ok p
      → (valid p ≡ true)
        × (p.fragility_score ≡ f.round2 score)
        × (p.trigger_protocols ≡ ps)
        × InBand p.alert_level p.fragility_score
  unfolding format_alert
  format_alert-InBand valid now score ps ts p h =
      elim (Option-cases (alert_level (f.round2 score))) [
        | inl low ↦ ground (arith, low)
        | inr (level, e) ↦
            let band : InBand level (f.round2 score) =
              InBand-alert_level (f.round2 score) level e in
            let same : p.alert_level ≡ level = ground (arith, e) in
            let kept : p.fragility_score ≡ f.round2 score = ground (arith, e) in
            (ground (arith, e), kept, ground (arith, e), rw (same, kept) band)
      ]
