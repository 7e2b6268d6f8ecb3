-- ===== src/Tools/MockWss/Speed.antt =====
-- `parse_speed` and `sleep_seconds` of tools/mock_wss/replay.py. The parser of floats and the
-- calendar are parameters.
use ai_quantum.Common.{◌+◌, if◌then◌else◌, Option, none, some, Outcome, ok, err, ◌≡◌, refl, []}
use ai_quantum.Common.Int.{ℤ, pos, pos_part, neg_part, sub_ℕ, leb_ℤ}
use ai_quantum.Common.Text.{Text, codes, text_eq, strip, lower}
use ai_quantum.Common.Float.{Float}
use ai_quantum.Common.Float.Exact.{sixteenths}
use ai_quantum.Ingestion.CsvLoader.{drop_x}

pub data SpeedError : Type 0 where
  invalid_speed not_above_zero : SpeedError

-- The difference of two epochs.
abbrev pub minus : ℤ → ℤ → ℤ
minus a b = sub_ℕ (pos_part a + neg_part b) (pos_part b + neg_part a)

module _ {F : Type 0} ⦃f : Float F⦄ where
  abbrev multiplier : Option F → Outcome SpeedError (Option F)
  multiplier none = err invalid_speed
  multiplier (some m) = if f.le m (f.of_ℕ 0) then err not_above_zero else ok (some m)

  -- `none` is `asap`.
  unfoldable pub parse_speed : (Text → Option F) → Text → Outcome SpeedError (Option F)
  parse_speed float value =
      let token = lower (strip value) in
      if text_eq token (codes "asap") then ok none else multiplier (float (drop_x token))

  -- The quotient by the speed; `of_int` is the conversion of the integer.
  abbrev pause_of : (ℤ → F) → ℤ → F → F
  pause_of of_int dt speed = if leb_ℤ dt (pos 0) then f.of_ℕ 0 else f.div (of_int dt) speed

  -- `none` is what `strptime` raises.
  abbrev pub both_epochs : (ℤ → F) → F → Option ℤ → Option ℤ → Option F
  both_epochs of_int speed none prev = none
  both_epochs of_int speed (some cur) none = none
  both_epochs of_int speed (some cur) (some prev) = some (pause_of of_int (minus cur prev) speed)

  unfoldable pub sleep_seconds : (Text → Option ℤ) → (ℤ → F) → Text → Text → Option F → Option F
  sleep_seconds epoch of_int prev_ts cur_ts none = some (f.of_ℕ 0)
  sleep_seconds epoch of_int prev_ts cur_ts (some speed) =
      both_epochs of_int speed (epoch cur_ts) (epoch prev_ts)

no_floats : Text → Option ℤ
no_floats s = none

is_asap : parse_speed no_floats (codes " Asap") ≡ ok none
unfolding parse_speed strip lower text_eq
is_asap = refl

refuses_word : parse_speed no_floats (codes "fastx") ≡ err invalid_speed
unfolding parse_speed strip lower text_eq no_floats
refuses_word = refl

never_negative :
    sleep_seconds
      (λ t. if text_eq t [] then some (pos 9) else some (pos 5))
      (λ z. z)
      []
      (codes "a")
      (some (pos 16))
    ≡ some (pos 0)
unfolding sleep_seconds text_eq
never_negative = refl
