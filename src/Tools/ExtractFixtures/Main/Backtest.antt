-- ===== src/Tools/ExtractFixtures/Main/Backtest.antt =====
-- What the fixture files hold, for the backtest.
use ai_quantum.Common.{
  ℕ, ◌+◌, ◌≤◌, ◌≡◌, refl, ap, sym, ◌∙◌, Bool, true, false, List, [], ◌∷◌, map, length, length-map,
  last, Option, some, Outcome, ok, ◌>>=◌, arith,
}
use ai_quantum.Common.Int.{pos, negsuc, ltb_ℤ}
use ai_quantum.Common.Text.{Text, codes, text_eq}
use ai_quantum.Common.Text.Number.{str_int, int_of-print}
use ai_quantum.Common.Eq.{text_eq_instance}
use ai_quantum.Common.Float.{Float}
use ai_quantum.Common.Dict.{get}
use ai_quantum.Common.Dict.Keys.{All}
use ai_quantum.Common.Sorting.{AreAbove, IsSorted}
use ai_quantum.Core.RingBuffer.{deque_protocol}
use ai_quantum.Ingestion.Event.{TickDataEvent}
use ai_quantum.Ingestion.CsvLoader.{
  Raw, CsvEvent, LogLine, CsvRowError, int_cell, map_csv_row, int_field, str_field, iter_from,
  iter_csv_events, out_of_order, Speed, text, parse_rate, Calendar,
}
use ai_quantum.Ingestion.CsvLoader.Backtest.{run_backtest}
use ai_quantum.Ingestion.CsvLoader.Backtest.Replayed.{
  AreDated, good_events, events-iter_from, empty, run_backtest-deque,
}
use ai_quantum.Tools.MockWss.Fixture.Loaded.{from_index}
use ai_quantum.Tools.ExtractFixtures.Fetch.{block_and_index}
use ai_quantum.Tools.ExtractFixtures.Main.{Cells, cells_of, write_csv}
use ai_quantum.Tools.ExtractFixtures.Main.Loaded.{read_row, IsPlain, ReadsBack, read-write_csv}

-- A row as the backtest has it.
abbrev pub csv_event : TickDataEvent → CsvEvent
csv_event e = record {
  block_number = pos e.block_number;
  log_index = pos e.log_index;
  block_timestamp = some e.block_timestamp;
  protocol = some e.protocol;
  event_type = some e.event_type;
  pool_address = some e.pool_address;
  token0 = some e.token0;
  token1 = some e.token1;
  amount0 = some e.amount0;
  amount1 = some e.amount1;
  tx_hash = some e.tx_hash;
}

int_cell-str_int : (f : Text) (n : ℕ) → int_cell f (some (str_int (pos n))) ≡ ok (pos n)
unfolding str_int
int_cell-str_int f n = rw (int_of-print n, int_cell) refl

not_below : (a b : ℕ) → b ≤ a → ltb_ℤ (pos a) (pos b) ≡ false
not_below a b h = ground arith

out_of_order-IsSorted :
    (b : ℕ) (rows : List TickDataEvent)
    → AreAbove block_and_index (b, 0) rows
    → IsSorted block_and_index rows
    → out_of_order (pos b) (map csv_event rows) ≡ []
unfolding out_of_order
out_of_order-IsSorted b [] h k = refl
out_of_order-IsSorted b (e ∷ es) h k =
    let in_order : ltb_ℤ (pos e.block_number) (pos b) ≡ false =
      not_below e.block_number b (ground (arith, h.0)) in
    rw (in_order, out_of_order) (out_of_order-IsSorted e.block_number es (from_index e es k.0) k.1)

then-ok :
    {A B : Type 0} (m : Outcome CsvRowError A) (a : A) (rest : A → Outcome CsvRowError B)
    (r : Outcome CsvRowError B)
    → m ≡ ok a
    → rest a ≡ r
    → (m >>= rest) ≡ r
then-ok m a rest r h k = rw h k

block_cell :
    (e : TickDataEvent)
    → int_field (read_row (cells_of e)) (codes "block_number") ≡ ok (pos e.block_number)
unfolding int_field str_field cells_of get text_eq
block_cell e = int_cell-str_int (codes "block_number") e.block_number

index_cell :
    (e : TickDataEvent)
    → int_field (read_row (cells_of e)) (codes "log_index") ≡ ok (pos e.log_index)
unfolding int_field str_field cells_of get text_eq
index_cell e = int_cell-str_int (codes "log_index") e.log_index

not_negative : (a : ℕ) → ltb_ℤ (pos a) (negsuc 0) ≡ false
not_negative a = ground arith

module _ (valid : CsvEvent → Bool) where
  abbrev pub IsValid : TickDataEvent → Type 0
  IsValid e = valid (csv_event e) ≡ true

  map_csv_row-cells_of :
      (e : TickDataEvent)
      → IsValid e
      → map_csv_row valid true (read_row (cells_of e)) ≡ ok (csv_event e)
  unfolding map_csv_row str_field cells_of get text_eq
  map_csv_row-cells_of e h =
      then-ok _ _ _ _ (block_cell e) (then-ok _ _ _ _ (index_cell e) (rw h refl))

  iter_from-cells_of :
      (line : ℕ) (rows : List TickDataEvent)
      → All IsValid rows
      → iter_from valid true line (map read_row (map cells_of rows)) ≡ (map csv_event rows, [])
  unfolding iter_from
  iter_from-cells_of line [] h = refl
  iter_from-cells_of line (e ∷ es) h =
      rw (map_csv_row-cells_of e h.0, iter_from-cells_of (line + 1) es h.1) refl

sorted-out_of_order :
    (rows : List TickDataEvent)
    → IsSorted block_and_index rows
    → out_of_order (negsuc 0) (map csv_event rows) ≡ []
unfolding out_of_order
sorted-out_of_order [] h = refl
sorted-out_of_order (e ∷ es) h =
    rw (not_negative e.block_number, out_of_order)
      (out_of_order-IsSorted e.block_number es (from_index e es h.0) h.1)

module _ {File : Type 0} (written : List Text → List Cells → Outcome File File)
    (read : File → List Raw) (reads_back : ReadsBack written read) {F Time : Type 0} ⦃f : Float F⦄
    (is_finite : F → Bool) (float : Text → Option F) (calendar : Calendar Time F)
    (valid : CsvEvent → Bool) where
  -- Where the csv module writes rows of cells without a line break, whose keys are the columns of a
  -- header of different names, without an error and reads them back as they were written: a sorted table
  -- that the extractor writes, whose cells have no line break and whose rows the schema accepts and
  -- have a readable timestamp, is written with the number of its rows for the count, and goes through the backtest, at a legal speed, without a line in the
  -- error log and without a warning about the order of its blocks; the backtest returns the number
  -- of rows, and a new deque buffer holds the newest rows, as many as its capacity allows.
  pub run_backtest-write_csv :
      (speed : Text) (sp : Speed F) (rows : List TickDataEvent) (capacity : ℕ)
      → IsSorted block_and_index rows
      → All IsPlain rows
      → All (IsValid valid) rows
      → parse_rate is_finite float (text speed) ≡ ok sp
      → AreDated calendar (map csv_event rows)
      → (file : File) × (write_csv written rows ≡ ok (file, length rows))
        × (let raws = read file in
            let out =
              run_backtest is_finite float calendar
                (deque_protocol CsvEvent)
                valid
                speed
                raws
                (empty is_finite float calendar valid capacity) in
            (out.0 ≡ ok (length rows))
            × (out.1.buffer.buf ≡ last capacity (map csv_event rows))
            × ((iter_csv_events valid true raws).1 ≡ [])
            × (out_of_order (negsuc 0) (iter_csv_events valid true raws).0 ≡ []))
  unfolding iter_csv_events
  run_backtest-write_csv speed sp rows capacity sorted plain accepted parses dated =
      let (file, writes, back) = read-write_csv written read reads_back rows plain in
      let raws = read file in
      let all : iter_from valid true 2 raws ≡ (map csv_event rows, []) =
        rw back (iter_from-cells_of valid 2 rows accepted) in
      let goods : good_events valid raws ≡ map csv_event rows =
        sym (events-iter_from valid 2 raws) ∙ ap (λ (o : List CsvEvent × List LogLine). o.0) all in
      let (returns, counted, lines, maxlen, window) =
        run_backtest-deque is_finite float calendar valid speed sp raws capacity parses
          (rw goods dated) in
      (
        file,
        writes,
        (
          returns ∙ ap (λ (n : ℕ). ok n) (ap length goods ∙ length-map rows csv_event),
          window ∙ ap (last capacity) goods,
          ap (λ (o : List CsvEvent × List LogLine). o.1) all,
          rw all (sorted-out_of_order rows sorted),
        ),
      )
