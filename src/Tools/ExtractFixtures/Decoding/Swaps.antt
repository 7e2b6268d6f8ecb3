-- ===== src/Tools/ExtractFixtures/Decoding/Swaps.antt =====
-- A swap's log, as the EVM encodes it, and its row.
use ai_quantum.Common.{
  ℕ, ◌^◌, ◌≤◌, ◌<◌, ◌≡◌, refl, List, [], ◌∷◌, ◌++◌, Option, some, ok, true, arith,
}
use ai_quantum.Common.Int.{ℤ, pos_part, neg_part, pos, negsuc}
use ai_quantum.Common.Text.{Text, codes, lower}
use ai_quantum.Common.Text.Number.{hex_int, str_int}
use ai_quantum.Ingestion.Event.{TickDataEvent, swap, uniswap_v3}
use ai_quantum.Tools.ExtractFixtures.{Log, univ3_usdc_weth, univ3_usdc, univ3_weth}
use ai_quantum.Tools.ExtractFixtures.Decoding.{
  or_raise, int_from_hex, ts_from_hex, decode_univ3_swap,
}
use ai_quantum.Tools.ExtractFixtures.Decoding.Words.{
  word, complement, concat, AreWords, length-word, slice_data-words, int_16-word, int_16-hex_int,
  to_signed-complement,
}

-- What a swap reports, and where.
pub record Swap : Type 0 where
  pub amount0 : ℤ
  pub amount1 : ℤ
  pub rest : Text
  pub topics : List Text
  pub block : ℕ
  pub seconds : ℕ
  pub index : ℕ
  pub hash : Text

-- Of 256 bits.
pub record FitsInt256 (z : ℤ) : Type 0 where
  pub upper : pos_part z < 2 ^ 255
  pub below : neg_part z ≤ 2 ^ 255

-- The amounts are the first two words of the data; `rest` holds the price and what follows it.
abbrev pub swap_log : Swap → Log
swap_log s = record {
  address = lower univ3_usdc_weth;
  topics = s.topics;
  payload =
      codes "0x"
      ++ (concat (word (complement s.amount0) ∷ word (complement s.amount1) ∷ []) ++ s.rest);
  block_number = hex_int s.block;
  time_stamp = hex_int s.seconds;
  transaction_hash = s.hash;
  log_index = hex_int s.index;
}

abbrev pub swap_row : Swap → Text → TickDataEvent
swap_row s time = record {
  block_number = s.block;
  block_timestamp = time;
  protocol = uniswap_v3;
  event_type = swap;
  pool_address = lower univ3_usdc_weth;
  token0 = lower univ3_usdc;
  token1 = lower univ3_weth;
  amount0 = str_int s.amount0;
  amount1 = str_int s.amount1;
  tx_hash = lower s.hash;
  log_index = s.index;
}

complement-lt : (z : ℤ) → FitsInt256 z → complement z < 2 ^ 256
complement-lt (pos n) f = omega (arith, f.upper)
complement-lt (negsuc n) f = omega arith

int_from_hex-complement :
    (z : ℤ) → FitsInt256 z → int_from_hex true 256 (codes "0x" ++ word (complement z)) ≡ ok z
unfolding int_from_hex
int_from_hex-complement z f =
    rw (int_16-word (complement z) (complement-lt z f), int_from_hex)
      (rw (to_signed-complement z f.upper f.below) refl)

ts_from_hex-hex_int :
    (iso : ℕ → Option Text) (n : ℕ) (time : Text)
    → iso n ≡ some time
    → ts_from_hex iso (hex_int n) ≡ ok time
unfolding ts_from_hex or_raise
ts_from_hex-hex_int iso n time h = rw (int_16-hex_int n, ts_from_hex) (rw h refl)

-- Decoding undoes the EVM's encoding: from the log of a swap whose amounts are signed integers of
-- 256 bits, written as two's complement, and whose numbers are written by `hex`, the decoder makes
-- the row with those amounts in decimal, their signs kept, and that block, time and index.
pub decode_univ3_swap-swap_log :
    (iso : ℕ → Option Text) (s : Swap) (time : Text)
    → FitsInt256 s.amount0
    → FitsInt256 s.amount1
    → iso s.seconds ≡ some time
    → decode_univ3_swap iso (swap_log s) ≡ ok (swap_row s time)
unfolding decode_univ3_swap
decode_univ3_swap-swap_log iso s time f0 f1 h =
    let n0 = complement s.amount0 in
    let n1 = complement s.amount1 in
    let ws = word n0 ∷ word n1 ∷ [] in
    let are_words : AreWords ws = (length-word n0, (length-word n1, tt)) in
    rw
      (
        slice_data-words ws s.rest 0 (word n0) are_words refl (length-word n0),
        slice_data-words ws s.rest 1 (word n1) are_words refl (length-word n1),
        int_from_hex-complement s.amount0 f0,
        int_from_hex-complement s.amount1 f1,
        int_16-hex_int s.block,
        int_16-hex_int s.index,
        ts_from_hex-hex_int iso s.seconds time h,
      )
      refl
