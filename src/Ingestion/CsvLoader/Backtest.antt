-- ===== src/Ingestion/CsvLoader/Backtest.antt =====
-- `run_backtest` of ingestion/pipeline.py, from the rows of its fixture on, with the metric of the
-- events as a number.
pub mod Replayed
use ai_quantum.Common.{ℕ, ◌+◌, Bool, List, Option, none, some, Outcome, ok, err}
use ai_quantum.Common.Text.{Text}
use ai_quantum.Common.Float.{Float}
use ai_quantum.Core.RingBuffer.{RingBufferProtocol}
use ai_quantum.Ingestion.CsvLoader.{
  Raw, CsvEvent, RateError, Speed, text, parse_rate, Calendar, run,
}

pub data BacktestError : Type 0 where
  bad_rate : RateError → BacktestError
  bad_timestamp : BacktestError

module _ {F Time : Type 0} ⦃f : Float F⦄ (is_finite : F → Bool) (float : Text → Option F)
    (calendar : Calendar Time F) (p : RingBufferProtocol CsvEvent) (valid : CsvEvent → Bool) where
  pub record State : Type 0 where
    pub buffer : p.Buffer
    pub ingested : ℕ

  abbrev finished : Option ℕ × p.Buffer → State → Outcome BacktestError ℕ × State
  finished (none, b) s = (err bad_timestamp, record s { buffer = b })
  finished (some n, b) s = (ok n, record { buffer = b; ingested = s.ingested + n })

  abbrev with_speed :
      Outcome RateError (Speed F) → List Raw → State → Outcome BacktestError ℕ × State
  with_speed (err e) raws s = (err (bad_rate e), s)
  with_speed (ok speed) raws s = finished (run calendar p valid speed raws s.buffer) s

  unfoldable pub run_backtest : Text → List Raw → State → Outcome BacktestError ℕ × State
  run_backtest speed raws s = with_speed (parse_rate is_finite float (text speed)) raws s
