-- ===== src/Ingestion/CsvLoader/Tests.antt =====
-- A file with a sound row and a row whose block number is a word.
use ai_quantum.Common.{
  ℕ, ◌+◌, Bool, true, List, [], ◌∷◌, length, last, Option, none, some, ok, err, ◌≡◌, refl,
}
use ai_quantum.Common.Int.{ℤ, pos}
use ai_quantum.Common.Text.{Text, codes, text_eq, strip, lower}
use ai_quantum.Common.Text.Number.{int_of, read_from}
use ai_quantum.Common.Dict.{get}
use ai_quantum.Common.Float.Exact.{sixteenths}
use ai_quantum.Core.RingBuffer.{deque_protocol}
use ai_quantum.Ingestion.CsvLoader.{
  Raw, CsvEvent, Calendar, asap, text, parse_rate, map_csv_row, missing_column, bad_integer,
  iter_csv_events, str_field,
}
use ai_quantum.Ingestion.CsvLoader.Backtest.{run_backtest}
use ai_quantum.Ingestion.CsvLoader.Backtest.Replayed.{
  AreDated, good_events, empty, run_backtest-deque,
}

abbrev with_block : Text → Raw
with_block n =
    (codes "block_number", some n)
    ∷ (codes "log_index", some (codes "3"))
    ∷ (codes "block_timestamp", some (codes "2023-03-11T00:00:00Z"))
    ∷ (codes "protocol", some (codes "aave_v3"))
    ∷ (codes "event_type", some (codes "supply"))
    ∷ (codes "pool_address", some (codes "0xab"))
    ∷ (codes "token0", some (codes "0xc0"))
    ∷ (codes "token1", some (codes "0x00"))
    ∷ (codes "amount0", some (codes "5"))
    ∷ (codes "amount1", some (codes "0"))
    ∷ (codes "tx_hash", some (codes "0xdd"))
    ∷ []

abbrev raws : List Raw
raws = with_block (codes "17") ∷ with_block (codes "seventeen") ∷ with_block (codes "18") ∷ []

abbrev any : CsvEvent → Bool
any e = true

abbrev calendar : Calendar ℕ ℤ
calendar = record { fromisoformat = λ t. some 0; total_seconds = λ a b. pos 0 }

abbrev no_floats : Text → Option ℤ
no_floats s = none

parses_asap : parse_rate (λ n. true) no_floats (text (codes " ASAP ")) ≡ ok asap
unfolding parse_rate strip lower text_eq
parses_asap = refl

refuses_word :
    map_csv_row any true (with_block (codes "seventeen")) ≡ err (bad_integer (codes "block_number"))
unfolding map_csv_row get text_eq int_of read_from str_field
refuses_word = refl

refuses_empty : map_csv_row any true [] ≡ err (missing_column (codes "block_number"))
unfolding map_csv_row get str_field
refuses_empty = refl

are_dated : AreDated calendar (good_events any raws)
unfolding good_events map_csv_row get text_eq int_of read_from str_field
are_dated = ((0, refl), ((0, refl), tt))

run_backtest-deque_example :
    let out =
      run_backtest
        (λ n. true)
        no_floats
        calendar
        (deque_protocol CsvEvent)
        any
        (codes " ASAP ")
        raws
        (empty (λ n. true) no_floats calendar any 1) in
    let n = length (good_events any raws) in
    (out.0 ≡ ok n)
    × (out.1.ingested ≡ n)
    × (n + length (iter_csv_events any true raws).1 ≡ length raws)
    × (out.1.buffer.maxlen ≡ 1)
    × (out.1.buffer.buf ≡ last 1 (good_events any raws))
run_backtest-deque_example =
    run_backtest-deque (λ n. true) no_floats calendar any (codes " ASAP ") asap raws 1 parses_asap
      are_dated
