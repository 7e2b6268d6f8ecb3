-- ===== src/Tools/ExtractFixtures/Main/Tests.antt =====
-- A chain with one swap, extracted, replayed and put through the backtest.
use ai_quantum.Common.{
  Outcome, ℕ, zero, suc, ◌+◌, ◌<◌, ◌≤◌, ◌≡◌, refl, inl, inr, ◌⊎◌, ◌==◌, ◌&&◌, Bool, true, false, ap,
  ◌∙◌, Bool-cases, if◌then◌else◌, List, [], ◌∷◌, map, length, Option, none, some, ok, err, arith,
}
use ai_quantum.Common.Int.{ℤ, pos, negsuc}
use ai_quantum.Common.Text.{Text, codes, text_eq, strip, lower}
use ai_quantum.Common.Text.Number.{str_int, print}
use ai_quantum.Common.Dict.{get}
use ai_quantum.Common.Float.Exact.{sixteenths}
use ai_quantum.Core.RingBuffer.{deque_protocol}
use ai_quantum.Ingestion.Event.{TickDataEvent, swap, uniswap_v3}
use ai_quantum.Ingestion.CsvLoader.{
  Raw, CsvEvent, Calendar, asap, text, parse_rate, iter_csv_events, out_of_order,
}
use ai_quantum.Ingestion.CsvLoader.Backtest.{run_backtest}
use ai_quantum.Ingestion.CsvLoader.Backtest.Replayed.{empty}
use ai_quantum.Tools.Dotenv.{Environ, get_api_key, load_env_file, api_key_in}
use ai_quantum.Tools.ExtractFixtures.{
  Log, normal, univ3_swap_topic, aave_v3_borrow_topic, aave_v3_supply_topic, liquidation_topic,
  univ3_usdc_weth, univ3_usdc, univ3_weth, aave_v3_pool,
}
use ai_quantum.Tools.ExtractFixtures.Etherscan.{Params, Reply, failed, accept}
use ai_quantum.Tools.ExtractFixtures.Etherscan.Spans.{History, span}
use ai_quantum.Tools.ExtractFixtures.Etherscan.Complete.{Serves, answer, logs_between}
use ai_quantum.Tools.ExtractFixtures.Decoding.{decode_univ3_swap}
use ai_quantum.Tools.ExtractFixtures.Decoding.Swaps.{
  Swap, FitsInt256, swap_log, swap_row, decode_univ3_swap-swap_log,
}
use ai_quantum.Tools.ExtractFixtures.Fetch.{Decoder, kinds, params_of, decode_all}
use ai_quantum.Tools.ExtractFixtures.Fetch.Sorted.{CanFetch, AreRows, none_left, then_kind}
use ai_quantum.Tools.ExtractFixtures.Main.{
  Cells, cells_of, targets, periods, returned, write_csv, main,
}
use ai_quantum.Tools.ExtractFixtures.Main.Loaded.{
  is_plain, read_row, ReadsBack, IsPlain, AreFixtures, main-AreFixtures,
}
use ai_quantum.Tools.ExtractFixtures.Main.Backtest.{csv_event, run_backtest-write_csv}

abbrev trade : Swap
trade = record {
  amount0 = negsuc 41;
  amount1 = pos 1000;
  rest = codes "00";
  topics = [];
  block = 16820000;
  seconds = 1678492800;
  index = 3;
  hash = codes "0xAB";
}

abbrev iso : ℕ → Option Text
iso n = some (codes "2023-03-11T00:00:00Z")

abbrev row : TickDataEvent
row = swap_row trade (codes "2023-03-11T00:00:00Z")

unfoldable chain : History
chain address topic n =
    if text_eq topic univ3_swap_topic && n == 16820000 then swap_log trade ∷ [] else []

length-chain : (address topic : Text) (n : ℕ) → length (chain address topic n) < 1000
unfolding chain
length-chain address topic n = elim (Bool-cases (text_eq topic univ3_swap_topic && n == 16820000)) [
  | inl here ↦ rw here (omega arith)
  | inr elsewhere ↦ rw elsewhere (omega arith)
]

abbrev answers : ℕ → Params → Reply
answers zero p = failed (codes "ConnectionError")
answers (suc n) p = answer chain p

is_faithful_at :
    (n : ℕ) (p : Params)
    → ((e : Text) × (accept (answers n p) ≡ err e)) ⊎ (answers n p ≡ answer chain p)
unfolding accept
is_faithful_at zero p = inl (codes "ConnectionError", refl)
is_faithful_at (suc n) p = inr refl

serves : Serves chain answers
serves = record {
  is_faithful = is_faithful_at;
  recovers = λ n p. (1, omega arith, rw (let e : n + 1 ≡ suc n = omega arith in e) refl);
}

can_fetch : (address topic : Text) → CanFetch chain (params_of normal address topic)
unfolding params_of
can_fetch address topic = record {
  some_block = omega arith;
  fits = λ n i j. length-chain address topic n;
}

-- Nothing happens from a block on.
span-quiet : (h : ℕ → List Log) (n c : ℕ) → ((m : ℕ) → n ≤ m → h m ≡ []) → span h n c ≡ []
span-quiet h n zero q = refl
span-quiet h n (suc c) q =
    rw (q n (omega arith), span-quiet h (suc n) c (λ m i. q m (omega arith))) refl

one_log :
    (h : ℕ → List Log) (l : Log) (n c : ℕ)
    → h n ≡ l ∷ []
    → ((m : ℕ) → suc n ≤ m → h m ≡ [])
    → span h n (suc c) ≡ l ∷ []
one_log h l n c e q = rw (e, span-quiet h (suc n) c q) refl

no_later_swap : (address : Text) (m : ℕ) → 16820001 ≤ m → chain address univ3_swap_topic m ≡ []
unfolding chain
no_later_swap address m h =
    let differs : (m == 16820000) ≡ false = ground arith in
    elim (Bool-cases (text_eq univ3_swap_topic univ3_swap_topic)) [
      | inl same ↦ rw (same, differs) refl
      | inr other ↦ rw other refl
    ]

first_swap : (address : Text) → chain address univ3_swap_topic 16820000 ≡ swap_log trade ∷ []
unfolding chain text_eq univ3_swap_topic
first_swap address = refl

trade_fits : FitsInt256 trade.amount0
trade_fits = record { upper = omega arith; below = omega arith }

paid_fits : FitsInt256 trade.amount1
paid_fits = record { upper = omega arith; below = omega arith }

decodes : decode_all (decode_univ3_swap iso) (swap_log trade ∷ []) ≡ ok (row ∷ [])
unfolding decode_all
decodes =
    rw
      (
        decode_univ3_swap-swap_log iso trade (codes "2023-03-11T00:00:00Z") trade_fits paid_fits
            refl,
        decode_all,
      )
      refl

no_logs :
    (address topic : Text)
    → text_eq topic univ3_swap_topic ≡ false
    → (n c : ℕ) → span (chain address topic) n c ≡ []
unfolding chain
no_logs address topic differs n c = span-quiet (chain address topic) n c (λ m i. rw differs refl)

no_rows :
    (decode : Decoder) (address topic : Text)
    → text_eq topic univ3_swap_topic ≡ false
    → decode_all decode (logs_between chain (params_of normal address topic)) ≡ ok []
unfolding decode_all params_of
no_rows decode address topic differs = rw (no_logs address topic differs 16820000 5001) refl

swap_rows :
    (address : Text) (c : ℕ)
    → decode_all (decode_univ3_swap iso) (span (chain address univ3_swap_topic) 16820000 (suc c))
      ≡ ok (row ∷ [])
swap_rows address c =
    ap (decode_all (decode_univ3_swap iso)) (
      one_log (chain address univ3_swap_topic) (swap_log trade) 16820000 c (first_swap address)
        (no_later_swap address))
    ∙ decodes

one_row : AreRows chain (kinds iso normal) (row ∷ [])
unfolding kinds params_of text_eq univ3_swap_topic aave_v3_borrow_topic aave_v3_supply_topic
    liquidation_topic
one_row = then_kind _ _ (row ∷ []) [] (can_fetch _ _) (swap_rows _ 5000) (
    then_kind _ _ [] [] (can_fetch _ _) (no_rows _ aave_v3_pool aave_v3_borrow_topic refl) (
      then_kind _ _ [] [] (can_fetch _ _) (no_rows _ aave_v3_pool aave_v3_supply_topic refl) (
        then_kind _ _ [] [] (can_fetch _ _) (no_rows _ aave_v3_pool liquidation_topic refl)
          none_left)))

-- A csv module that keeps the rows as they are.
abbrev File : Type 0
File = List Text × List Cells

abbrev written : List Text → List Cells → Outcome File File
written header rows = ok (header, rows)

abbrev read : File → List Raw
read (header, rows) = map read_row rows

reads_back : ReadsBack written read
reads_back header rows h columns plain = ((header, rows), refl, refl)

row-IsPlain : IsPlain row
unfolding cells_of is_plain str_int print lower univ3_usdc_weth univ3_usdc univ3_weth uniswap_v3
    swap
row-IsPlain =
    (refl, (refl, (refl, (refl, (refl, (refl, (refl, (refl, (refl, (refl, (refl, tt)))))))))))

abbrev environ : Environ
environ = (codes "ETHERSCAN_API_KEY", codes " k ") ∷ []

has_key : get_api_key none environ ≡ some (codes "k")
unfolding get_api_key load_env_file api_key_in strip get text_eq
has_key = refl

chosen : targets (codes "normal") ≡ some (normal ∷ [])
unfolding targets periods get text_eq
chosen = refl

main-AreFixtures_example :
    ((main written answers iso (codes "normal") none environ).0 ≡ returned)
    × AreFixtures written read
        (normal ∷ [])
        ((row ∷ []) ∷ [])
        (main written answers iso (codes "normal") none environ).1
main-AreFixtures_example =
    main-AreFixtures written read reads_back chain answers serves iso (codes "normal") none environ
      (codes "k") (normal ∷ []) ((row ∷ []) ∷ []) chosen has_key (one_row, (row-IsPlain, tt), tt)

abbrev any : CsvEvent → Bool
any e = true

abbrev calendar : Calendar ℕ ℤ
calendar = record { fromisoformat = λ t. some 0; total_seconds = λ a b. pos 0 }

abbrev no_floats : Text → Option ℤ
no_floats s = none

parses_asap : parse_rate (λ n. true) no_floats (text (codes "asap")) ≡ ok asap
unfolding parse_rate strip lower text_eq
parses_asap = refl

run_backtest-write_csv_example :
    (file : File) × (write_csv written (row ∷ []) ≡ ok (file, 1))
    × (let raws = read file in
        let out =
          run_backtest
            (λ n. true)
            no_floats
            calendar
            (deque_protocol CsvEvent)
            any
            (codes "asap")
            raws
            (empty (λ n. true) no_floats calendar any 1) in
        (out.0 ≡ ok 1)
        × (out.1.buffer.buf ≡ csv_event row ∷ [])
        × ((iter_csv_events any true raws).1 ≡ [])
        × (out_of_order (negsuc 0) (iter_csv_events any true raws).0 ≡ []))
run_backtest-write_csv_example =
    run_backtest-write_csv written read reads_back (λ n. true) no_floats calendar any (codes "asap")
      asap (row ∷ []) 1 (tt, tt) (row-IsPlain, tt) (refl, tt) parses_asap ((0, refl), tt)
