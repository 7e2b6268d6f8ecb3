-- ===== src/Tools/ExtractFixtures/Main.antt =====
-- `_write_csv` and `main` of tools/extract_fixtures.py. The csv module is a parameter: `written`
-- is what a `DictWriter` makes of the columns and the rows given to it: the file, or a ValueError for
-- a key that is no column, with the file as it was left.
pub mod Loaded
pub mod Backtest
mod Tests
use ai_quantum.Common.{
  ℕ, zero, suc, ◌+◌, List, [], ◌∷◌, map, Option, none, some, Outcome, ok, err, if◌then◌else◌,
}
use ai_quantum.Common.Int.{pos}
use ai_quantum.Common.Text.{Text, codes, text_eq}
use ai_quantum.Common.Text.Number.{str_int}
use ai_quantum.Common.Eq.{text_eq_instance}
use ai_quantum.Common.Dict.{get}
use ai_quantum.Ingestion.Event.{TickDataEvent}
use ai_quantum.Tools.Dotenv.{Environ, get_api_key}
use ai_quantum.Tools.ExtractFixtures.{Period, luna, ftx, normal}
use ai_quantum.Tools.ExtractFixtures.Etherscan.{Params, Reply}
use ai_quantum.Tools.ExtractFixtures.Fetch.{PeriodError, Table, fetch_period}

-- A row's dictionary, its all_periods as they are written: a text, or the `str` of a number.
abbrev pub Cells : Type 0
Cells = List (Text × Text)

unfoldable pub csv_header : List Text
csv_header =
    codes "block_number"
    ∷ codes "block_timestamp"
    ∷ codes "protocol"
    ∷ codes "event_type"
    ∷ codes "pool_address"
    ∷ codes "token0"
    ∷ codes "token1"
    ∷ codes "amount0"
    ∷ codes "amount1"
    ∷ codes "tx_hash"
    ∷ codes "log_index"
    ∷ []

unfoldable pub cells_of : TickDataEvent → Cells
cells_of r =
    (codes "block_number", str_int (pos r.block_number))
    ∷ (codes "block_timestamp", r.block_timestamp)
    ∷ (codes "protocol", r.protocol)
    ∷ (codes "event_type", r.event_type)
    ∷ (codes "pool_address", r.pool_address)
    ∷ (codes "token0", r.token0)
    ∷ (codes "token1", r.token1)
    ∷ (codes "amount0", r.amount0)
    ∷ (codes "amount1", r.amount1)
    ∷ (codes "tx_hash", r.tx_hash)
    ∷ (codes "log_index", str_int (pos r.log_index))
    ∷ []

-- `PERIODS`.
unfoldable pub periods : List (Text × Period)
periods = (codes "luna", luna) ∷ (codes "ftx", ftx) ∷ (codes "normal", normal) ∷ []

abbrev all_periods : List (Text × Period) → List Period
all_periods [] = []
all_periods ((name, period) ∷ rest) = period ∷ all_periods rest

abbrev one_of : Option Period → Option (List Period)
one_of none = none
one_of (some period) = some (period ∷ [])

-- `targets`; `none` is a choice that the parser of the arguments does not have.
unfoldable pub targets : Text → Option (List Period)
unfolding periods
targets period =
    if text_eq period (codes "all") then some (all_periods periods) else one_of (get period periods)

-- How `main` is left.
pub data Exit : Type 0 where
  returned : Exit
  usage_error : Exit
  no_api_key : Exit
  csv_error : Exit
  raised : PeriodError → Exit

-- The loop over the rows, which counts them.
abbrev pub write_rows : List TickDataEvent → List Cells × ℕ
write_rows [] = ([], 0)
write_rows (row ∷ rows) = let (cells, count) = write_rows rows in (cells_of row ∷ cells, count + 1)

-- The file with the number of its rows, where the writing did not raise.
abbrev pub counted : {File : Type 0} → ℕ → Outcome File File → Outcome File (File × ℕ)
counted count (err file) = err file
counted count (ok file) = ok (file, count)

module _ {File : Type 0} (written : List Text → List Cells → Outcome File File) where
  unfoldable pub write_csv : List TickDataEvent → Outcome File (File × ℕ)
  unfolding cells_of csv_header
  write_csv rows = let (cells, count) = write_rows rows in counted count (written csv_header cells)

  -- The files that are written, by their names, in order.
  abbrev pub Files : Type 0
  Files = List (Text × File)

  -- A file is there once it is opened, also where the writing raises.
  abbrev pub then_next : Text → (ℕ → Exit × Files) → ℕ → Outcome File (File × ℕ) → Exit × Files
  then_next name next calls (err file) = (csv_error, (name, file) ∷ [])
  then_next name next calls (ok (file, count)) =
      let (exit, files) = next calls in (exit, (name, file) ∷ files)

  abbrev pub then_write : Period → (ℕ → Exit × Files) → Table → Exit × Files
  then_write period next (err e, calls) = (raised e, [])
  then_write period next (ok rows, calls) = then_next period.filename next calls (write_csv rows)

  module _ (respond : ℕ → Params → Reply) (iso : ℕ → Option Text) where
    -- The loop over the periods; a fetch that raises leaves the files that are there.
    unfoldable pub write_periods : List Period → ℕ → Exit × Files
    unfolding write_csv
    write_periods [] calls = (returned, [])
    write_periods (period ∷ rest) calls =
        then_write period (write_periods rest) (fetch_period respond iso period calls)

    abbrev pub with_key : List Period → Option Text → Exit × Files
    with_key list none = (no_api_key, [])
    with_key list (some api_key) = write_periods list 0

    abbrev pub for_targets : Option (List Period) → Option Text → Exit × Files
    for_targets none api_key = (usage_error, [])
    for_targets (some list) api_key = with_key list api_key

    -- `main` with its `--period`; `env_file` is the lines of `.env`.
    unfoldable pub main : Text → Option (List Text) → Environ → Exit × Files
    unfolding write_periods targets
    main period env_file environ = for_targets (targets period) (get_api_key env_file environ)
