-- ===== src/Ingestion/CsvLoader.antt =====
-- ingestion/csv_loader.py: fixture rows to event dictionaries, and their replay into a ring buffer.
-- The schema, the calendar and the parser of floats are parameters.

pub mod Backtest
mod Tests
use ai_quantum.Common.{
  ℕ, ◌+◌, Bool, true, false, not, ◌||◌, ◌==◌, if◌then◌else◌, List, [], ◌∷◌, ◌++◌, Option, none,
  some, Outcome, ok, err, ◌>>=◌,
}
use ai_quantum.Common.Int.{ℤ, pos, negsuc, ltb_ℤ}
use ai_quantum.Common.Text.{Text, codes, lower, strip, text_eq}
use ai_quantum.Common.Text.Number.{int_of}
use ai_quantum.Common.Eq.{text_eq_instance}
use ai_quantum.Common.Dict.{get}
use ai_quantum.Common.Float.{Float}
use ai_quantum.Core.RingBuffer.{RingBufferProtocol}

-- What `csv.DictReader` gives: a short row has `None` under its last columns.
abbrev pub Raw : Type 0
Raw = List (Text × Option Text)

-- An event's dictionary, before the schema has seen it.
pub record CsvEvent : Type 0 where
  pub block_number : ℤ
  pub log_index : ℤ
  pub block_timestamp : Option Text
  pub protocol : Option Text
  pub event_type : Option Text
  pub pool_address : Option Text
  pub token0 : Option Text
  pub token1 : Option Text
  pub amount0 : Option Text
  pub amount1 : Option Text
  pub tx_hash : Option Text

-- The reasons of a `CsvRowError`.
pub data CsvRowError : Type 0 where
  missing_column : Text → CsvRowError
  bad_integer : Text → CsvRowError
  schema_violation : CsvRowError

unfoldable pub str_field : Raw → Text → Outcome CsvRowError (Option Text)
str_field raw f = elim (get f raw) [ none ↦ err (missing_column f) | some cell ↦ ok cell ]

-- `int(raw[f])`.
abbrev pub int_cell : Text → Option Text → Outcome CsvRowError ℤ
int_cell f none = err (bad_integer f)
int_cell f (some s) = elim (int_of s) [ none ↦ err (bad_integer f) | some n ↦ ok n ]

unfoldable pub int_field : Raw → Text → Outcome CsvRowError ℤ
unfolding str_field
int_field raw f = do cell ← str_field raw f; int_cell f cell

abbrev pub checked_by : (CsvEvent → Bool) → Bool → CsvEvent → Outcome CsvRowError CsvEvent
checked_by valid validate event =
    if not validate || valid event then ok event else err schema_violation

unfoldable pub map_csv_row : (CsvEvent → Bool) → Bool → Raw → Outcome CsvRowError CsvEvent
unfolding int_field str_field
map_csv_row valid validate raw = do
  block_number ← int_field raw (codes "block_number")
  log_index ← int_field raw (codes "log_index")
  block_timestamp ← str_field raw (codes "block_timestamp")
  protocol ← str_field raw (codes "protocol")
  event_type ← str_field raw (codes "event_type")
  pool_address ← str_field raw (codes "pool_address")
  token0 ← str_field raw (codes "token0")
  token1 ← str_field raw (codes "token1")
  amount0 ← str_field raw (codes "amount0")
  amount1 ← str_field raw (codes "amount1")
  tx_hash ← str_field raw (codes "tx_hash")
  checked_by valid validate (record {
    block_number = block_number;
    log_index = log_index;
    block_timestamp = block_timestamp;
    protocol = protocol;
    event_type = event_type;
    pool_address = pool_address;
    token0 = token0;
    token1 = token1;
    amount0 = amount0;
    amount1 = amount1;
    tx_hash = tx_hash;
  })

-- A line of the error log.
pub record LogLine : Type 0 where
  pub line : ℕ
  pub reason : CsvRowError
  pub row : Raw

abbrev pub yield_or_log :
    ℕ
    → Raw
    → Outcome CsvRowError CsvEvent
    → List CsvEvent × List LogLine
    → List CsvEvent × List LogLine
yield_or_log lineno raw (ok event) (events, log) = (event ∷ events, log)
yield_or_log lineno raw (err e) (events, log) =
    (events, record { line = lineno; reason = e; row = raw } ∷ log)

module _ (valid : CsvEvent → Bool) (validate : Bool) where
  unfoldable pub iter_from : ℕ → List Raw → List CsvEvent × List LogLine
  unfolding map_csv_row
  iter_from lineno [] = ([], [])
  iter_from lineno (raw ∷ raws) =
      yield_or_log lineno raw (map_csv_row valid validate raw) (iter_from (lineno + 1) raws)

  -- The events that are yielded, and the lines of the error log; line 1 is the header.
  unfoldable pub iter_csv_events : List Raw → List CsvEvent × List LogLine
  unfolding iter_from
  iter_csv_events raws = iter_from 2 raws

-- The warnings of `stream_csv`, which passes every event on: a block and the one before it.
unfoldable pub out_of_order : ℤ → List CsvEvent → List (ℤ × ℤ)
out_of_order prev_block [] = []
out_of_order prev_block (e ∷ es) =
    let rest = out_of_order e.block_number es in
    if ltb_ℤ e.block_number prev_block then (e.block_number, prev_block) ∷ rest else rest

-- The argument `rate`, by its type.
pub data Rate (F : Type 0) : Type 0 where
  boolean : Bool → Rate F
  number : F → Rate F
  text : Text → Rate F
  other : Rate F

abbrev pub drop_x : Text → Text
drop_x [] = []
drop_x (c ∷ []) = if c == b'x' then [] else c ∷ []
drop_x (c ∷ d ∷ s) = c ∷ drop_x (d ∷ s)

pub data RateError : Type 0 where
  invalid_rate not_positive : RateError

-- `asap` is the infinite speed.
pub data Speed (F : Type 0) : Type 0 where
  asap : Speed F
  finite : F → Speed F

module _ {F : Type 0} ⦃f : Float F⦄ (is_finite : F → Bool) (float : Text → Option F) where
  abbrev checked : F → Outcome RateError (Speed F)
  checked speed =
      if not (is_finite speed) || f.le speed (f.of_ℕ 0) then err not_positive else ok (finite speed)

  abbrev parsed : Option F → Outcome RateError (Speed F)
  parsed none = err invalid_rate
  parsed (some speed) = checked speed

  -- `_parse_rate`.
  unfoldable pub parse_rate : Rate F → Outcome RateError (Speed F)
  parse_rate (boolean b) = err invalid_rate
  parse_rate (number n) = checked n
  parse_rate (text s) =
      let r = lower (strip s) in
      if text_eq r (codes "asap") then ok asap else parsed (float (drop_x r))
  parse_rate other = err invalid_rate

-- The calendar: `datetime.fromisoformat`, where `none` is what it raises, and the difference of
-- two times in seconds.
pub record Calendar (Time F : Type 0) : Type 0 where
  pub fromisoformat : Option Text → Option Time
  pub total_seconds : Time → Time → F

module _ {F Time : Type 0} ⦃f : Float F⦄ (calendar : Calendar Time F)
    (p : RingBufferProtocol CsvEvent) where
  -- A `ReplayDriver` that runs; `pauses` are its sleeps.
  pub record Run : Type 0 where
    pub buffer : p.Buffer
    pub prev_ts : Option Time
    pub pauses : List F
    pub count : ℕ

  -- The sleep before an event, if there is one.
  abbrev pub pause : Speed F → Option Time → Time → List F
  pause speed none ts = []
  pause asap (some prev) ts = []
  pause (finite speed) (some prev) ts =
      let delay = f.div (calendar.total_seconds prev ts) speed in
      if f.lt (f.of_ℕ 0) delay then delay ∷ [] else []

  abbrev pub replay_event : Speed F → CsvEvent → Time → Run → Run
  replay_event speed event ts r = record {
    buffer = p.write event r.buffer;
    prev_ts = some ts;
    pauses = r.pauses ++ pause speed r.prev_ts ts;
    count = r.count + 1;
  }

  -- The loop; it says whether a timestamp raised.
  unfoldable pub replay : Speed F → List CsvEvent → Run → Run × Bool
  replay speed [] r = (r, false)
  replay speed (e ∷ es) r = elim (calendar.fromisoformat e.block_timestamp) [
    | none ↦ (r, true)
    | some ts ↦ replay speed es (replay_event speed e ts r)
  ]

  -- `ReplayDriver.run` with the rows of its file; `none` is the exception of a timestamp, and the
  -- buffer keeps what was written before it.
  unfoldable pub run : (CsvEvent → Bool) → Speed F → List Raw → p.Buffer → Option ℕ × p.Buffer
  unfolding replay iter_csv_events
  run valid speed raws b =
      let (events, log) = iter_csv_events valid true raws in
      let (r, raised) =
        replay speed events (record { buffer = b; prev_ts = none; pauses = []; count = 0 }) in
      (if raised then none else some r.count, r.buffer)
