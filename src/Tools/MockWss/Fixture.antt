-- ===== src/Tools/MockWss/Fixture.antt =====
-- `load_events` of tools/mock_wss/replay.py. The rows are what `csv.DictReader` gives; a column that
-- is not there, or that a short row leaves out, is `none` where the code asks for an integer. A
-- row has natural numbers here: a fixture with an integer below zero, which the code loads, is marked
-- `below_zero`, an outcome that the code does not have.
pub mod Loaded
mod Tests
use ai_quantum.Common.{ℕ, ◌+◌, List, [], ◌∷◌, Option, none, some, Outcome, ok, err, ◌>>=◌}
use ai_quantum.Common.Int.{ℤ, pos, negsuc}
use ai_quantum.Common.Text.{Text, codes}
use ai_quantum.Common.Text.Number.{int_of}
use ai_quantum.Common.Sorting.{Key, sort}
use ai_quantum.Ingestion.Event.{TickDataEvent}

pub record Raw : Type 0 where
  pub block_number : Option Text
  pub log_index : Option Text
  pub block_timestamp : Text
  pub protocol : Text
  pub event_type : Text
  pub pool_address : Text
  pub token0 : Text
  pub token1 : Text
  pub amount0 : Text
  pub amount1 : Text
  pub tx_hash : Text

-- `INT_COLS`.
pub data Column : Type 0 where
  block_number log_index : Column

-- `ValueError`, with its line and column.
pub data LoadError : Type 0 where
  invalid_integer : ℕ → Column → LoadError
  below_zero : LoadError

-- What a row comes to without two integers, or with one below zero.
pub data BadRow : Type 0 where
  invalid : Column → BadRow
  below_zero : BadRow

-- `int(raw)`, where `int(None)` raises as well.
unfoldable pub to_int : Option Text → Option ℤ
to_int none = none
to_int (some s) = int_of s

abbrev pub with_ints : Raw → Option ℤ → Option ℤ → Outcome BadRow TickDataEvent
with_ints r none i = err (invalid block_number)
with_ints r (some b) none = err (invalid log_index)
with_ints r (some (negsuc b)) (some i) = err BadRow.below_zero
with_ints r (some (pos b)) (some (negsuc i)) = err BadRow.below_zero
with_ints r (some (pos b)) (some (pos i)) = ok (record {
  block_number = b;
  block_timestamp = r.block_timestamp;
  protocol = r.protocol;
  event_type = r.event_type;
  pool_address = r.pool_address;
  token0 = r.token0;
  token1 = r.token1;
  amount0 = r.amount0;
  amount1 = r.amount1;
  tx_hash = r.tx_hash;
  log_index = i;
})

-- The loop over the integer columns.
unfoldable pub cast_row : Raw → Outcome BadRow TickDataEvent
unfolding to_int
cast_row r = with_ints r (to_int r.block_number) (to_int r.log_index)

abbrev pub at_line :
    ℕ
    → Outcome BadRow TickDataEvent
    → Outcome LoadError (List TickDataEvent)
    → Outcome LoadError (List TickDataEvent)
at_line line (err (invalid c)) rest = err (invalid_integer line c)
at_line line (err BadRow.below_zero) (err e) = err e
at_line line (err BadRow.below_zero) (ok rows) = err LoadError.below_zero
at_line line (ok row) (err e) = err e
at_line line (ok row) (ok rows) = ok (row ∷ rows)

unfoldable pub load_rows : ℕ → List Raw → Outcome LoadError (List TickDataEvent)
unfolding cast_row
load_rows line [] = ok []
load_rows line (r ∷ rs) = at_line line (cast_row r) (load_rows (line + 1) rs)

abbrev pub block_and_index : TickDataEvent → Key
block_and_index r = (r.block_number, r.log_index)

-- Line 1 is the header.
unfoldable pub load_events : List Raw → Outcome LoadError (List TickDataEvent)
unfolding load_rows
load_events raws = do rows ← load_rows 2 raws; ok (sort block_and_index rows)
