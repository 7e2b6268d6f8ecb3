-- ===== src/Tools/ExtractFixtures/Tests.antt =====
-- A chain with one swap, and an API that drops the first call.
use ai_quantum.Common.{
  ℕ, zero, suc, ◌+◌, ◌<◌, ◌≤◌, ◌≡◌, refl, inl, inr, ◌⊎◌, ◌==◌, ◌&&◌, Bool-cases, if◌then◌else◌,
  List, [], ◌∷◌, length, Option, some, ok, err, arith,
}
use ai_quantum.Common.Int.{pos, negsuc}
use ai_quantum.Common.Text.{Text, codes, text_eq, starts_with}
use ai_quantum.Common.Sorting.{Key, IsSorted, of_key}
use ai_quantum.Ingestion.Event.{TickDataEvent}
use ai_quantum.Tools.ExtractFixtures.{
  Period, univ3_swap_topic, aave_v3_borrow_topic, aave_v3_supply_topic, liquidation_topic,
}
use ai_quantum.Tools.ExtractFixtures.Etherscan.{Params, Reply, failed, accept, etherscan_get_logs}
use ai_quantum.Tools.ExtractFixtures.Etherscan.Spans.{History}
use ai_quantum.Tools.ExtractFixtures.Etherscan.Complete.{
  Serves, answer, IsAnswered, etherscan_get_logs_lem,
}
use ai_quantum.Tools.ExtractFixtures.Decoding.{slice_data, value_error, decode_univ3_swap}
use ai_quantum.Tools.ExtractFixtures.Decoding.Swaps.{
  Swap, FitsInt256, swap_log, swap_row, decode_univ3_swap-swap_log,
}
use ai_quantum.Tools.ExtractFixtures.Fetch.{
  kinds, fetch_period, block_and_index, params_of, decode_all,
}
use ai_quantum.Tools.ExtractFixtures.Fetch.Sorted.{
  CanFetch, AreRows, none_left, then_kind, fetch_period_lem,
}

abbrev trade : Swap
trade = record {
  amount0 = negsuc 41;
  amount1 = pos 1000;
  rest = codes "00";
  topics = [];
  block = 5;
  seconds = 1678492800;
  index = 3;
  hash = codes "0xAB";
}

abbrev iso : ℕ → Option Text
iso n = some (codes "2023-03-11T00:00:00Z")

abbrev row : TickDataEvent
row = swap_row trade (codes "2023-03-11T00:00:00Z")

trade_fits : FitsInt256 trade.amount0
trade_fits = record { upper = omega arith; below = omega arith }

paid_fits : FitsInt256 trade.amount1
paid_fits = record { upper = omega arith; below = omega arith }

decode_univ3_swap-swap_log_example : decode_univ3_swap iso (swap_log trade) ≡ ok row
decode_univ3_swap-swap_log_example =
    decode_univ3_swap-swap_log iso trade (codes "2023-03-11T00:00:00Z") trade_fits paid_fits refl

unfoldable chain : History
chain address topic n = if text_eq topic univ3_swap_topic && n == 5 then swap_log trade ∷ [] else []

length-chain : (address topic : Text) (n : ℕ) → length (chain address topic n) < 1000
unfolding chain
length-chain address topic n = elim (Bool-cases (text_eq topic univ3_swap_topic && n == 5)) [
  | inl here ↦ rw here (omega arith)
  | inr elsewhere ↦ rw elsewhere (omega arith)
]

abbrev answers : ℕ → Params → Reply
answers zero p = failed (codes "ConnectionError")
answers (suc n) p = answer chain p

is_faithful_at :
    (n : ℕ) (p : Params)
    → ((e : Text) × (accept (answers n p) ≡ err e)) ⊎ (answers n p ≡ answer chain p)
unfolding accept
is_faithful_at zero p = inl (codes "ConnectionError", refl)
is_faithful_at (suc n) p = inr refl

serves : Serves chain answers
serves = record {
  is_faithful = is_faithful_at;
  recovers = λ n p. (1, omega arith, rw (let e : n + 1 ≡ suc n = omega arith in e) refl);
}

abbrev period : Period
period = record {
  name = codes "normal";
  from_block = 5;
  to_block = 6;
  filename = codes "normal.csv";
  aave_version = codes "v3";
}

abbrev swaps : Params
swaps = params_of period (codes "0x88") univ3_swap_topic

some_swaps : swaps.from_block ≤ swaps.to_block
unfolding params_of
some_swaps = omega arith

etherscan_get_logs_lem_example : IsAnswered chain swaps (etherscan_get_logs answers 0 swaps).0
etherscan_get_logs_lem_example = etherscan_get_logs_lem chain answers 0 swaps serves some_swaps

can_fetch : (address topic : Text) → CanFetch chain (params_of period address topic)
unfolding params_of
can_fetch address topic = record {
  some_block = omega arith;
  fits = λ n i j. length-chain address topic n;
}

one_row : AreRows chain (kinds iso period) (row ∷ [])
unfolding kinds params_of text_eq chain decode_all univ3_swap_topic aave_v3_borrow_topic
    aave_v3_supply_topic liquidation_topic
one_row =
    then_kind _ _ (row ∷ []) [] (can_fetch _ _)
      (rw (decode_univ3_swap-swap_log_example, decode_all) refl)
      (then_kind _ _ [] [] (can_fetch _ _) refl (
        then_kind _ _ [] [] (can_fetch _ _) refl
          (then_kind _ _ [] [] (can_fetch _ _) refl none_left)))

fetch_period_lem_example :
    (rows : List TickDataEvent) × ((fetch_period answers iso period 0).0 ≡ ok rows)
    × IsSorted block_and_index rows
    × ((k : Key) → of_key block_and_index k rows ≡ of_key block_and_index k (row ∷ []))
fetch_period_lem_example = fetch_period_lem chain answers iso period (row ∷ []) 0 serves one_row

-- A word that is cut off is refused.
refuses_short : slice_data (codes "0x00") 0 ≡ err value_error
unfolding slice_data starts_with
refuses_short = refl
