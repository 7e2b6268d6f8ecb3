-- ===== src/Tools/ExtractFixtures/Main/Loaded.antt =====
-- What the fixture files hold, for the replay that loads them.
use ai_quantum.Common.{
  Outcome, length, ◌||◌, false, ℕ, ◌+◌, ◌≡◌, refl, ap, Bool, true, not, ◌&&◌, ◌==◌, List, [], ◌∷◌,
  map, Option, none, some, ok, err, arith,
}
use ai_quantum.Common.Int.{pos}
use ai_quantum.Common.Text.{Text, codes, text_eq}
use ai_quantum.Common.Text.Number.{str_int, int_of-print}
use ai_quantum.Common.Eq.{text_eq_instance}
use ai_quantum.Common.Dict.{get}
use ai_quantum.Common.Dict.Keys.{All}
use ai_quantum.Common.Sorting.{
  Key, sort, sort-IsSorted, sort-sorted, sort-All, of_key, of_key-sort, IsSorted,
}
use ai_quantum.Ingestion.Event.{TickDataEvent}
use ai_quantum.Ingestion.CsvLoader.{Raw}
use ai_quantum.Tools.Dotenv.{Environ, get_api_key}
use ai_quantum.Tools.MockWss.Fixture
use ai_quantum.Tools.MockWss.Fixture.{to_int, cast_row, load_rows, load_events}
use ai_quantum.Tools.ExtractFixtures.{Period}
use ai_quantum.Tools.ExtractFixtures.Etherscan.{Params, Reply}
use ai_quantum.Tools.ExtractFixtures.Etherscan.Spans.{History}
use ai_quantum.Tools.ExtractFixtures.Etherscan.Complete.{Serves}
use ai_quantum.Tools.ExtractFixtures.Fetch.{Table, kinds, fetch_period, block_and_index}
use ai_quantum.Tools.ExtractFixtures.Fetch.Sorted.{AreRows, fetch_period-sort}
use ai_quantum.Tools.ExtractFixtures.Main.{
  Cells, cells_of, csv_header, targets, Exit, returned, write_rows, write_csv, Files, then_write,
  write_periods, main,
}

-- A text without a line break.
unfoldable pub is_plain : Text → Bool
is_plain [] = true
is_plain (c ∷ s) = not (c == b'\n') && not (c == b'\r') && is_plain s

abbrev pub ArePlain : Cells → Type 0
ArePlain [] = Unit
ArePlain ((column, cell) ∷ rest) = (is_plain cell ≡ true) × ArePlain rest

-- What a `DictReader` gives for a row of these cells.
abbrev pub read_row : Cells → Raw
read_row [] = []
read_row ((column, cell) ∷ rest) = (column, some cell) ∷ read_row rest

-- The keys of a row's dictionary, in order.
abbrev pub keys : Cells → List Text
keys [] = []
keys ((column, cell) ∷ rest) = column ∷ keys rest

abbrev is_among : Text → List Text → Bool
is_among column [] = false
is_among column (other ∷ rest) = text_eq column other || is_among column rest

abbrev are_distinct : List Text → Bool
are_distinct [] = true
are_distinct (column ∷ rest) = is_plain column && not (is_among column rest) && are_distinct rest

-- At least one column, all with different names without a line break.
unfoldable pub is_header : List Text → Bool
is_header [] = false
is_header (column ∷ rest) = are_distinct (column ∷ rest)

abbrev pub HasColumns : List Text → Cells → Type 0
HasColumns header row = keys row ≡ header

-- Rows whose keys are the columns of the header and whose cells have no line break are written
-- without an error, and are read back as they were written. Nothing is said of other rows.
abbrev pub ReadsBack :
    {File : Type 0} → (List Text → List Cells → Outcome File File) → (File → List Raw) → Type 0
ReadsBack {File} written read =
    (header : List Text) (rows : List Cells)
    → is_header header ≡ true
    → All (HasColumns header) rows
    → All ArePlain rows
    → (file : File) × (written header rows ≡ ok file) × (read file ≡ map read_row rows)

abbrev flat : Option (Option Text) → Option Text
flat none = none
flat (some cell) = cell

abbrev or_empty : Option Text → Text
or_empty none = []
or_empty (some s) = s

-- A row of the reader, as the replay's loader takes it.
unfoldable pub fixture_row : Raw → Fixture.Raw
unfolding get
fixture_row row = record {
  block_number = flat (get (codes "block_number") row);
  log_index = flat (get (codes "log_index") row);
  block_timestamp = or_empty (flat (get (codes "block_timestamp") row));
  protocol = or_empty (flat (get (codes "protocol") row));
  event_type = or_empty (flat (get (codes "event_type") row));
  pool_address = or_empty (flat (get (codes "pool_address") row));
  token0 = or_empty (flat (get (codes "token0") row));
  token1 = or_empty (flat (get (codes "token1") row));
  amount0 = or_empty (flat (get (codes "amount0") row));
  amount1 = or_empty (flat (get (codes "amount1") row));
  tx_hash = or_empty (flat (get (codes "tx_hash") row));
}

to_int-str_int : (n : ℕ) → to_int (some (str_int (pos n))) ≡ some (pos n)
unfolding to_int str_int
to_int-str_int n = rw (int_of-print n) refl

cast_row-cells_of : (e : TickDataEvent) → cast_row (fixture_row (read_row (cells_of e))) ≡ ok e
unfolding cast_row fixture_row cells_of get text_eq
cast_row-cells_of e = rw (to_int-str_int e.block_number, to_int-str_int e.log_index) refl

load_rows-cells_of :
    (line : ℕ) (rows : List TickDataEvent)
    → load_rows line (map fixture_row (map read_row (map cells_of rows))) ≡ ok rows
unfolding load_rows
load_rows-cells_of line [] = refl
load_rows-cells_of line (e ∷ es) = rw (cast_row-cells_of e, load_rows-cells_of (line + 1) es) refl

write_rows-map : (rows : List TickDataEvent) → (write_rows rows).0 ≡ map cells_of rows
write_rows-map [] = refl
write_rows-map (e ∷ es) = ap (λ (cs : List Cells). cells_of e ∷ cs) (write_rows-map es)

abbrev pub IsPlain : TickDataEvent → Type 0
IsPlain e = ArePlain (cells_of e)

All-cells_of : (rows : List TickDataEvent) → All IsPlain rows → All ArePlain (map cells_of rows)
All-cells_of [] h = tt
All-cells_of (e ∷ es) h = (h.0, All-cells_of es h.1)

header_lem : is_header csv_header ≡ true
unfolding is_header csv_header is_plain text_eq
header_lem = refl

cells_of-HasColumns : (e : TickDataEvent) → HasColumns csv_header (cells_of e)
unfolding cells_of csv_header
cells_of-HasColumns e = refl

All-HasColumns : (rows : List TickDataEvent) → All (HasColumns csv_header) (map cells_of rows)
All-HasColumns [] = tt
All-HasColumns (e ∷ es) = (cells_of-HasColumns e, All-HasColumns es)

write_rows-length : (rows : List TickDataEvent) → (write_rows rows).1 ≡ length rows
write_rows-length [] = refl
write_rows-length (e ∷ es) = omega (arith, write_rows-length es)

-- The tables of the periods, each from the history's logs, without a line break in a cell.
abbrev pub AreTables :
    History → (ℕ → Option Text) → List Period → List (List TickDataEvent) → Type 0
AreTables h iso [] [] = Unit
AreTables h iso (p ∷ ps) (all ∷ rest) =
    AreRows h (kinds iso p) all × All IsPlain all × AreTables h iso ps rest
AreTables h iso [] (all ∷ rest) = ⊥
AreTables h iso (p ∷ ps) [] = ⊥

module _ {File : Type 0} (written : List Text → List Cells → Outcome File File)
    (read : File → List Raw) where
  -- The file loads into the events of a table, in their order.
  abbrev pub Holds : List TickDataEvent → File → Type 0
  Holds all file =
      (rows : List TickDataEvent) × (load_events (map fixture_row (read file)) ≡ ok rows)
      × IsSorted block_and_index rows
      × ((k : Key) → of_key block_and_index k rows ≡ of_key block_and_index k all)

  -- One file for each period, under its name.
  abbrev pub AreFixtures : List Period → List (List TickDataEvent) → Files written → Type 0
  AreFixtures [] [] [] = Unit
  AreFixtures (p ∷ ps) (all ∷ rest) ((name, file) ∷ files) =
      (name ≡ p.filename) × Holds all file × AreFixtures ps rest files
  AreFixtures _ _ _ = ⊥

  module _ (reads_back : ReadsBack written read) where
    pub read-write_csv :
        (rows : List TickDataEvent)
        → All IsPlain rows
        → (file : File) × (write_csv written rows ≡ ok (file, length rows))
          × (read file ≡ map read_row (map cells_of rows))
    unfolding write_csv
    read-write_csv rows plain =
        let (file, writes, back) =
          reads_back csv_header (map cells_of rows) header_lem (All-HasColumns rows)
            (All-cells_of rows plain) in
        (file, rw (write_rows-map rows, write_rows-length rows, writes) refl, back)

    load_events-write_csv :
        (rows : List TickDataEvent)
        → IsSorted block_and_index rows
        → All IsPlain rows
        → (file : File) × (write_csv written rows ≡ ok (file, length rows))
          × (load_events (map fixture_row (read file)) ≡ ok rows)
    unfolding load_events
    load_events-write_csv rows sorted plain =
        let (file, writes, back) = read-write_csv rows plain in
        (
          file,
          writes,
          rw (back, load_rows-cells_of 2 rows, sort-sorted block_and_index rows sorted) refl,
        )

    write_csv-Holds :
        (all : List TickDataEvent)
        → All IsPlain all
        → let rows = sort block_and_index all in
          (file : File) × (write_csv written rows ≡ ok (file, length rows)) × Holds all file
    write_csv-Holds all plain =
        let rows = sort block_and_index all in
        let sorted = sort-IsSorted block_and_index all in
        let (file, writes, loads) =
          load_events-write_csv rows sorted (sort-All block_and_index IsPlain all plain) in
        (file, writes, (rows, loads, sorted, λ k. of_key-sort block_and_index k all))

    abbrev Writes : List Period → List (List TickDataEvent) → Exit × Files written → Type 0
    Writes ps alls out = (out.0 ≡ returned) × AreFixtures ps alls out.1

    then_write-Writes :
        (p : Period) (ps : List Period) (all : List TickDataEvent)
        (alls : List (List TickDataEvent)) (next : ℕ → Exit × Files written) (t : Table)
        → t.0 ≡ ok (sort block_and_index all)
        → All IsPlain all
        → ((calls : ℕ) → Writes ps alls (next calls))
        → Writes (p ∷ ps) (all ∷ alls) (then_write written p next t)
    then_write-Writes p ps all alls next (err e, calls) h plain k = cc h
    then_write-Writes p ps all alls next (ok rows, calls) h plain k =
        let same : rows ≡ sort block_and_index all = ground (arith, h) in
        let (file, writes, holds) = write_csv-Holds all plain in
        rw (same, writes) ((k calls).0, (refl, holds, (k calls).1))

    module _ (h : History) (respond : ℕ → Params → Reply) (s : Serves h respond)
        (iso : ℕ → Option Text) where
      write_periods-Writes :
          (ps : List Period) (alls : List (List TickDataEvent)) (calls : ℕ)
          → AreTables h iso ps alls
          → Writes ps alls (write_periods written respond iso ps calls)
      unfolding write_periods
      write_periods-Writes [] [] calls t = (refl, tt)
      write_periods-Writes [] (all ∷ alls) calls t = absurd t
      write_periods-Writes (p ∷ ps) [] calls t = absurd t
      write_periods-Writes (p ∷ ps) (all ∷ alls) calls (rows, plain, rest) =
          then_write-Writes p ps all alls (write_periods written respond iso ps)
            (fetch_period respond iso p calls) (fetch_period-sort h respond iso p all calls s rows)
            plain (λ calls'. write_periods-Writes ps alls calls' rest)

      -- Where the API answers from the history, with less than five failures in a row, there is an
      -- API key, no block of a period to extract holds 1000 logs of one of the four kinds, all its
      -- logs decode and no decoded cell holds a line break, and the csv module writes rows of such
      -- cells, whose keys are the columns of a header of different names, without an error and reads
      -- them back as they were written: the extractor returns, having written one file for each of the periods
      -- under its name, and the mock server loads each file into exactly the rows that the
      -- period's logs decode to, sorted by block and log index, those of one block and index in the
      -- order in which they were fetched.
      pub main-AreFixtures :
          (period : Text) (env_file : Option (List Text)) (environ : Environ) (api_key : Text)
          (ps : List Period) (alls : List (List TickDataEvent))
          → targets period ≡ some ps
          → get_api_key env_file environ ≡ some api_key
          → AreTables h iso ps alls
          → ((main written respond iso period env_file environ).0 ≡ returned)
            × AreFixtures ps alls (main written respond iso period env_file environ).1
      unfolding main
      main-AreFixtures period env_file environ api_key ps alls chosen has_key tables =
          rw (chosen, has_key) (write_periods-Writes ps alls 0 tables)
