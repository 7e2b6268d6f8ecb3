-- ===== src/Ingestion/CsvLoader/Backtest/Replayed.antt =====
-- What a backtest leaves in a ring buffer.
use ai_quantum.Common.{
  ℕ, ◌+◌, ◌-◌, suc, Bool, true, false, List, [], ◌∷◌, ◌++◌, length, last, drop-nil, append_assoc,
  append-nil, Option, none, some, Outcome, ok, err, Outcome-cases, inl, inr, ◌≡◌, refl, ap, sym,
  ◌∙◌, arith,
}
use ai_quantum.Common.Text.{Text}
use ai_quantum.Common.Float.{Float}
use ai_quantum.Core.RingBuffer.{deque_protocol}
use ai_quantum.Core.RingBuffer.Window.{buf-deque_write, maxlen-deque_write}
use ai_quantum.Ingestion.CsvLoader.{
  Raw, CsvEvent, CsvRowError, Speed, text, parse_rate, Calendar, Run, run, map_csv_row, iter_from,
  iter_csv_events, replay, replay_event,
}
use ai_quantum.Ingestion.CsvLoader.Backtest.{State, run_backtest}

abbrev pub event_of : Outcome CsvRowError CsvEvent → List CsvEvent
event_of (ok e) = e ∷ []
event_of (err e) = []

module _ (valid : CsvEvent → Bool) where
  -- The events of the rows that have one, in order.
  unfoldable pub good_events : List Raw → List CsvEvent
  good_events [] = []
  good_events (r ∷ rs) = event_of (map_csv_row valid true r) ++ good_events rs

  pub events-iter_from :
      (line : ℕ) (raws : List Raw) → (iter_from valid true line raws).0 ≡ good_events raws
  unfolding iter_from good_events
  events-iter_from line [] = refl
  events-iter_from line (r ∷ rs) = elim (Outcome-cases (map_csv_row valid true r)) [
    | inl (e, h) ↦ rw h (events-iter_from (line + 1) rs)
    | inr (e, h) ↦ rw h (ap (λ (t : List CsvEvent). e ∷ t) (events-iter_from (line + 1) rs))
  ]

  -- Every row is yielded or logged.
  rows-iter_from :
      (line : ℕ) (raws : List Raw)
      → length (iter_from valid true line raws).0 + length (iter_from valid true line raws).1
        ≡ length raws
  unfolding iter_from
  rows-iter_from line [] = omega arith
  rows-iter_from line (r ∷ rs) = elim (Outcome-cases (map_csv_row valid true r)) [
    | inl (e, h) ↦ rw h (omega (arith, rows-iter_from (line + 1) rs))
    | inr (e, h) ↦ rw h (omega (arith, rows-iter_from (line + 1) rs))
  ]

module _ {F Time : Type 0} ⦃f : Float F⦄ (calendar : Calendar Time F) where
  abbrev pub AreDated : List CsvEvent → Type 0
  AreDated [] = Unit
  AreDated (e ∷ es) =
      ((ts : Time) × (calendar.fromisoformat e.block_timestamp ≡ some ts)) × AreDated es

  abbrev Driver : Type 0
  Driver = Run calendar (deque_protocol CsvEvent)

  -- The events written so far are `h`.
  record Holds (r : Driver) (cap : ℕ) (h : List CsvEvent) (n : ℕ) : Type 0 where
    maxlen : r.buffer.maxlen ≡ cap
    window : r.buffer.buf ≡ last cap h
    counted : r.count ≡ n

  Holds-replay_event :
      (speed : Speed F) (e : CsvEvent) (ts : Time) (r : Driver) (cap : ℕ) (h : List CsvEvent)
      (n : ℕ)
      → Holds r cap h n
      → Holds
          (replay_event calendar (deque_protocol CsvEvent) speed e ts r)
          cap
          (h ++ e ∷ [])
          (n + 1)
  Holds-replay_event speed e ts r cap h n i = record {
    maxlen = maxlen-deque_write r.buffer e ∙ i.maxlen;
    window =
        buf-deque_write r.buffer h e (i.window ∙ ap (λ (c : ℕ). last c h) (sym i.maxlen))
        ∙ ap (λ (c : ℕ). last c (h ++ e ∷ [])) i.maxlen;
    counted = ap (λ (m : ℕ). m + 1) i.counted;
  }

  Holds-replay :
      (speed : Speed F) (es : List CsvEvent) (r : Driver) (cap : ℕ) (h : List CsvEvent) (n : ℕ)
      → AreDated es
      → Holds r cap h n
      → let out = replay calendar (deque_protocol CsvEvent) speed es r in
        Holds out.0 cap (h ++ es) (n + length es) × (out.1 ≡ false)
  unfolding replay
  Holds-replay speed [] r cap h n d i =
      let none_more : n + 0 ≡ n = omega arith in (rw (append-nil h, none_more) i, refl)
  Holds-replay speed (e ∷ es) r cap h n ((ts, t), d) i =
      let next : n + suc (length es) ≡ n + 1 + length es = omega arith in
      let r' = replay_event calendar (deque_protocol CsvEvent) speed e ts r in
      let (k, fine) =
        Holds-replay speed es r' cap (h ++ e ∷ []) (n + 1) d
          (Holds-replay_event speed e ts r cap h n i) in
      rw (t, replay) (rw next (rw (append_assoc h (e ∷ []) es) at k), fine)

module _ {F Time : Type 0} ⦃f : Float F⦄ (is_finite : F → Bool) (float : Text → Option F)
    (calendar : Calendar Time F) (valid : CsvEvent → Bool) where
  abbrev pub Deque : Type 0
  Deque = State is_finite float calendar (deque_protocol CsvEvent) valid

  abbrev pub empty : ℕ → Deque
  empty capacity = record { buffer = record { maxlen = capacity; buf = [] }; ingested = 0 }

  -- A backtest at a legal speed, over rows whose good events all have a readable timestamp, returns
  -- the number of these events and adds it to the metric; a row of the file is either one of them or
  -- a line of the error log; and a new deque buffer then holds the newest of the events, in the
  -- file's order, as many as its capacity allows.
  pub run_backtest-deque :
      (speed : Text) (sp : Speed F) (raws : List Raw) (capacity : ℕ)
      → parse_rate is_finite float (text speed) ≡ ok sp
      → AreDated calendar (good_events valid raws)
      → let out =
          run_backtest is_finite float calendar
            (deque_protocol CsvEvent)
            valid
            speed
            raws
            (empty capacity) in
        let n = length (good_events valid raws) in
        (out.0 ≡ ok n)
        × (out.1.ingested ≡ n)
        × (n + length (iter_csv_events valid true raws).1 ≡ length raws)
        × (out.1.buffer.maxlen ≡ capacity)
        × (out.1.buffer.buf ≡ last capacity (good_events valid raws))
  unfolding run_backtest run iter_csv_events
  run_backtest-deque speed sp raws capacity parses dated =
      let events = events-iter_from valid 2 raws in
      let goods = good_events valid raws in
      let (k, fine) =
        Holds-replay calendar sp goods
          (record { buffer = (empty capacity).buffer; prev_ts = none; pauses = []; count = 0 })
          capacity [] 0 dated
          (record { maxlen = refl; window = sym (drop-nil (0 - capacity)); counted = refl }) in
      let n = k.counted ∙ (let e : 0 + length goods ≡ length goods = omega arith in e) in
      let rows : length goods + length (iter_from valid true 2 raws).1 ≡ length raws =
        rw events at (rows-iter_from valid 2 raws) in
      rw (parses, run_backtest)
        (rw (events, fine, run) (ap ok n, omega (arith, n), rows, k.maxlen, k.window))
