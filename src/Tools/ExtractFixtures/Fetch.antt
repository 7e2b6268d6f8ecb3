-- ===== src/Tools/ExtractFixtures/Fetch.antt =====
-- `_fetch_period` of tools/extract_fixtures.py: four kinds of logs, fetched and decoded one after
-- the other, and one table sorted by block and log index.
pub mod Sorted
use ai_quantum.Common.{
  ℕ, ◌≤◌, ◌<◌, ◌≡◌, refl, ap, ◌∙◌, inl, inr, if◌then◌else◌, List, [], ◌∷◌, ◌++◌, length, Option,
  Outcome, ok, err, ◌>>=◌, arith,
}
use ai_quantum.Common.Text.{Text, codes, text_eq}
use ai_quantum.Common.Sorting.{Key, sort, sort-IsSorted, of_key, of_key-sort, IsSorted}
use ai_quantum.Ingestion.Event.{TickDataEvent}
use ai_quantum.Tools.ExtractFixtures.{
  Period, Log, univ3_usdc_weth, univ3_swap_topic, aave_v2_pool, aave_v2_borrow_topic,
  aave_v2_deposit_topic, liquidation_topic, aave_v3_pool, aave_v3_borrow_topic,
  aave_v3_supply_topic,
}
use ai_quantum.Tools.ExtractFixtures.Etherscan.{Params, Reply, FetchError, Rows, etherscan_get_logs}
use ai_quantum.Tools.ExtractFixtures.Etherscan.Spans.{History}
use ai_quantum.Tools.ExtractFixtures.Etherscan.Complete.{
  Serves, logs_between, IsAnswered, etherscan_get_logs_lem,
}
use ai_quantum.Tools.ExtractFixtures.Decoding.{
  DecodeError, decode_univ3_swap, decode_aave_borrow, decode_aave_supply, decode_aave_liquidation,
}

pub data PeriodError : Type 0 where
  fetch_error : FetchError → PeriodError
  decode_error : DecodeError → PeriodError

abbrev pub Decoder : Type 0
Decoder = Log → Outcome DecodeError TickDataEvent

-- The logs that one call asks for, and what reads them.
pub record Kind : Type 0 where
  pub params : Params
  pub decode : Decoder

abbrev pub Table : Type 0
Table = Outcome PeriodError (List TickDataEvent) × ℕ

abbrev pub cons_row :
    Outcome DecodeError TickDataEvent
    → Outcome PeriodError (List TickDataEvent)
    → Outcome PeriodError (List TickDataEvent)
cons_row (err e) rest = err (decode_error e)
cons_row (ok row) (err e) = err e
cons_row (ok row) (ok rows) = ok (row ∷ rows)

-- `rows.extend(decode(log) for log in logs)`.
unfoldable pub decode_all : Decoder → List Log → Outcome PeriodError (List TickDataEvent)
decode_all decode [] = ok []
decode_all decode (l ∷ ls) = cons_row (decode l) (decode_all decode ls)

abbrev pub decoded : Decoder → Rows → Table
decoded decode (err e, calls) = (err (fetch_error e), calls)
decoded decode (ok logs, calls) = (decode_all decode logs, calls)

-- The next kinds are fetched only where nothing was raised.
abbrev pub extend : (ℕ → Table) → Table → Table
extend next (err e, calls) = (err e, calls)
extend next (ok rows, calls) =
    let (rest, calls') = next calls in (rest >>= (λ more. ok (rows ++ more)), calls')

abbrev pub block_and_index : TickDataEvent → Key
block_and_index r = (r.block_number, r.log_index)

unfoldable pub params_of : Period → Text → Text → Params
params_of period address topic0 = record {
  from_block = period.from_block;
  to_block = period.to_block;
  address = address;
  topic0 = topic0;
}

module _ (iso : ℕ → Option Text) where
  abbrev aave_kinds : Period → Text → Text → Text → List Kind
  aave_kinds period pool borrow_topic supply_topic =
      record {
        params = params_of period pool borrow_topic;
        decode = decode_aave_borrow iso period.aave_version;
      }
      ∷ record {
        params = params_of period pool supply_topic;
        decode = decode_aave_supply iso period.aave_version;
      }
      ∷ record {
        params = params_of period pool liquidation_topic;
        decode = decode_aave_liquidation iso period.aave_version;
      }
      ∷ []

  unfoldable pub kinds : Period → List Kind
  kinds period =
      record {
        params = params_of period univ3_usdc_weth univ3_swap_topic;
        decode = decode_univ3_swap iso;
      }
      ∷ (if text_eq period.aave_version (codes "v2")
          then aave_kinds period aave_v2_pool aave_v2_borrow_topic aave_v2_deposit_topic
          else aave_kinds period aave_v3_pool aave_v3_borrow_topic aave_v3_supply_topic)

module _ (respond : ℕ → Params → Reply) where
  unfoldable pub fetch_kinds : List Kind → ℕ → Table
  fetch_kinds [] calls = (ok [], calls)
  fetch_kinds (k ∷ ks) calls =
      extend (fetch_kinds ks) (decoded k.decode (etherscan_get_logs respond calls k.params))

  unfoldable pub fetch_period : (ℕ → Option Text) → Period → ℕ → Table
  unfolding fetch_kinds
  fetch_period iso period calls =
      let (rows, calls') = fetch_kinds (kinds iso period) calls in
      (rows >>= (λ rs. ok (sort block_and_index rs)), calls')
