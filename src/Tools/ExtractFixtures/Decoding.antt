-- ===== src/Tools/ExtractFixtures/Decoding.antt =====
-- The log decoders of tools/extract_fixtures.py. The calendar, which refuses a time out of its
-- range, is a parameter.
pub mod Words
pub mod Swaps
use ai_quantum.Common.{
  ℕ, ◌+◌, ◌-◌, ◌*◌, ◌/◌, ◌^◌, Bool, not, true, false, ◌&&◌, leb, ◌==◌, if◌then◌else◌, Option, none,
  some, List, [], ◌∷◌, ◌++◌, length, take, drop, replicate, get_elem?, last, Outcome, ok, err,
  ◌>>=◌,
}
use ai_quantum.Common.Int.{ℤ, pos, sub_ℕ}
use ai_quantum.Common.Text.{Text, codes, lower, starts_with, removeprefix, text_eq}
use ai_quantum.Common.Text.Number.{read_digits, str_int}
use ai_quantum.Ingestion.Event.{TickDataEvent, swap, supply, borrow, liquidation, uniswap_v3}
use ai_quantum.Tools.ExtractFixtures.{
  Log, zero_addr, univ3_usdc_weth, univ3_usdc, univ3_weth, aave_v2_pool, aave_v3_pool,
}

-- What a decoder raises.
pub data DecodeError : Type 0 where
  value_error : DecodeError
  index_error : DecodeError

unfoldable pub or_raise {ℓ} : {A : Type ℓ} → DecodeError → Option A → Outcome DecodeError A
or_raise e none = err e
or_raise e (some a) = ok a

-- `int(s, 16)`.
unfoldable pub int_16 : Text → Outcome DecodeError ℕ
unfolding or_raise
int_16 s = or_raise value_error (read_digits 16 (removeprefix (codes "0x") s))

-- `_int_from_hex`: unsigned, or as two's complement.
abbrev pub to_signed : ℕ → ℕ → ℤ
to_signed limit n = if leb (limit / 2) n then sub_ℕ n limit else pos n

unfoldable pub int_from_hex : Bool → ℕ → Text → Outcome DecodeError ℤ
unfolding int_16
int_from_hex signed bits s = do n ← int_16 s; ok (if signed then to_signed (2 ^ bits) n else pos n)

-- `_slice_data`.
unfoldable pub slice_data : Text → ℕ → Outcome DecodeError Text
slice_data data_hex offset =
    let word = take 64 (drop (2 + offset * 64) data_hex) in
    if starts_with (codes "0x") data_hex
    then if length word == 64 then ok (codes "0x" ++ word) else err value_error
    else err value_error

-- `s.replace("0x", "")`.
unfoldable pub remove_0x : Text → Text
remove_0x [] = []
remove_0x (c ∷ []) = c ∷ []
remove_0x (c ∷ d ∷ s) =
    let rest = remove_0x s in
    let kept = remove_0x (d ∷ s) in if c == b'0' && d == b'x' then rest else c ∷ kept

-- `s.rjust(64, "0")`.
abbrev rjust : Text → Text
rjust s = replicate (64 - length s) b'0' ++ s

-- `_hex_to_addr`.
unfoldable pub hex_to_addr : Text → Text
unfolding remove_0x
hex_to_addr hex_word = codes "0x" ++ last 40 (rjust (remove_0x (lower hex_word)))

abbrev pub topic_at : Log → ℕ → Outcome DecodeError Text
topic_at log i = or_raise index_error (get_elem? log.topics i)

abbrev pub word_at : Log → ℕ → Outcome DecodeError Text
word_at log i = slice_data log.payload i

-- `pool_address` and `protocol` of a version.
unfoldable pub aave_pool : Text → Text
aave_pool version = if text_eq version (codes "v2") then aave_v2_pool else aave_v3_pool

abbrev pub aave_protocol : Text → Text
aave_protocol version = codes "aave_" ++ version

module _ (iso : ℕ → Option Text) where
  -- `_ts_from_hex`.
  unfoldable pub ts_from_hex : Text → Outcome DecodeError Text
  ts_from_hex hex_ts = do seconds ← int_16 hex_ts; or_raise value_error (iso seconds)

  unfoldable pub decode_univ3_swap : Log → Outcome DecodeError TickDataEvent
  unfolding int_from_hex ts_from_hex
  decode_univ3_swap log = do
    word0 ← word_at log 0
    amount0 ← int_from_hex true 256 word0
    word1 ← word_at log 1
    amount1 ← int_from_hex true 256 word1
    block_number ← int_16 log.block_number
    block_timestamp ← ts_from_hex log.time_stamp
    log_index ← int_16 log.log_index
    ok (record {
      block_number = block_number;
      block_timestamp = block_timestamp;
      protocol = uniswap_v3;
      event_type = swap;
      pool_address = lower univ3_usdc_weth;
      token0 = lower univ3_usdc;
      token1 = lower univ3_weth;
      amount0 = str_int amount0;
      amount1 = str_int amount1;
      tx_hash = lower log.transaction_hash;
      log_index = log_index;
    })

  -- `decode_aave_borrow` and `decode_aave_supply`, which differ in the event's name.
  unfoldable pub decode_aave_single : Text → Text → Log → Outcome DecodeError TickDataEvent
  unfolding int_from_hex ts_from_hex
  decode_aave_single event_type version log = do
    topic1 ← topic_at log 1
    word ← word_at log 1
    amount ← int_from_hex false 256 word
    block_number ← int_16 log.block_number
    block_timestamp ← ts_from_hex log.time_stamp
    log_index ← int_16 log.log_index
    ok (record {
      block_number = block_number;
      block_timestamp = block_timestamp;
      protocol = aave_protocol version;
      event_type = event_type;
      pool_address = lower (aave_pool version);
      token0 = lower (hex_to_addr topic1);
      token1 = zero_addr;
      amount0 = str_int amount;
      amount1 = codes "0";
      tx_hash = lower log.transaction_hash;
      log_index = log_index;
    })

  unfoldable pub decode_aave_borrow : Text → Log → Outcome DecodeError TickDataEvent
  decode_aave_borrow = decode_aave_single borrow

  unfoldable pub decode_aave_supply : Text → Log → Outcome DecodeError TickDataEvent
  decode_aave_supply = decode_aave_single supply

  unfoldable pub decode_aave_liquidation : Text → Log → Outcome DecodeError TickDataEvent
  unfolding int_from_hex ts_from_hex
  decode_aave_liquidation version log = do
    topic1 ← topic_at log 1
    topic2 ← topic_at log 2
    word0 ← word_at log 0
    debt_to_cover ← int_from_hex false 256 word0
    word1 ← word_at log 1
    liquidated_collateral ← int_from_hex false 256 word1
    block_number ← int_16 log.block_number
    block_timestamp ← ts_from_hex log.time_stamp
    log_index ← int_16 log.log_index
    ok (record {
      block_number = block_number;
      block_timestamp = block_timestamp;
      protocol = aave_protocol version;
      event_type = liquidation;
      pool_address = lower (aave_pool version);
      token0 = lower (hex_to_addr topic1);
      token1 = lower (hex_to_addr topic2);
      amount0 = str_int liquidated_collateral;
      amount1 = str_int debt_to_cover;
      tx_hash = lower log.transaction_hash;
      log_index = log_index;
    })
