-- ===== src/Ingestion/Decoders/Uniswap.antt =====
-- `UniswapV3Decoder` of ingestion/decoders/uniswap_v3.py.
use ai_quantum.Common.{Option, ℕ, List, [], ◌∷◌, if◌then◌else◌, Outcome, ok, err, ◌>>=◌}
use ai_quantum.Common.Int.{ℤ}
use ai_quantum.Common.Text.{Text, codes, text_eq, lower}
use ai_quantum.Common.Text.Number.{str_int}
use ai_quantum.Ingestion.Event.{TickDataEvent, swap, mint, burn, uniswap_v3}
use ai_quantum.Ingestion.Whitelist.{PoolMeta}
use ai_quantum.Ingestion.Decoders.{
  Log, DecodeError, unknown_topic, bad_abi, bad_time, AbiType, int256, int24, uint256, uint160,
  uint128, address, Abi, normalize, tx_hash_of, to_data_bytes, to_int, topic_at, number_at,
  from_option,
}

unfoldable pub swap_topic : Text
swap_topic = codes "0xc42079f94a6350d7e6235f29174924f928cc2ac818eb64fed8004e115fbcca67"

unfoldable pub mint_topic : Text
mint_topic = codes "0x7a53080ba414158be7ec69b987b5fb7d07dee101fe85488f0853ae16239d0bde"

unfoldable pub burn_topic : Text
burn_topic = codes "0x0c396cd989a39f4459b5fa1aed6a9a8dcdbc45908acfd67e028cd568da98982c"

abbrev pub swap_types : List AbiType
swap_types = int256 ∷ int256 ∷ uint160 ∷ uint128 ∷ int24 ∷ []

abbrev pub mint_types : List AbiType
mint_types = address ∷ uint128 ∷ uint256 ∷ uint256 ∷ []

abbrev pub burn_types : List AbiType
burn_types = uint128 ∷ uint256 ∷ uint256 ∷ []

-- The type of an event with its two amounts.
pub record Amounts : Type 0 where
  pub event_type : Text
  pub amount0 : ℤ
  pub amount1 : ℤ

module _ (abi : Abi) (ts_to_iso : ℕ → Option Text) where
  -- One branch: the layout, and where the amounts stand in it.
  unfoldable pub amounts_at : Text → List AbiType → ℕ → ℕ → List ℕ → Outcome DecodeError Amounts
  amounts_at event_type types i j payload = do
    decoded ← from_option bad_abi (abi.decode types payload)
    amount0 ← number_at decoded i
    amount1 ← number_at decoded j
    ok (record { event_type = event_type; amount0 = amount0; amount1 = amount1 })

  unfoldable pub amounts_of : Text → List ℕ → Outcome DecodeError Amounts
  unfolding amounts_at
  amounts_of topic0 payload =
      if text_eq topic0 swap_topic
      then amounts_at swap swap_types 0 1 payload
      else if text_eq topic0 mint_topic
      then amounts_at mint mint_types 2 3 payload
      else if text_eq topic0 burn_topic
      then amounts_at burn burn_types 1 2 payload
      else err (unknown_topic topic0)

  unfoldable pub decode : Log → PoolMeta → ℕ → Outcome DecodeError TickDataEvent
  unfolding amounts_of
  decode log pool_meta block_timestamp = do
    topic ← topic_at log.topics 0
    payload ← to_data_bytes log.payload
    found ← amounts_of (normalize topic) payload
    block_number ← to_int log.block_number
    time ← from_option bad_time (ts_to_iso block_timestamp)
    log_index ← to_int log.log_index
    ok (record {
      block_number = block_number;
      block_timestamp = time;
      protocol = uniswap_v3;
      event_type = found.event_type;
      pool_address = normalize log.address;
      token0 = lower pool_meta.token0;
      token1 = lower pool_meta.token1;
      amount0 = str_int found.amount0;
      amount1 = str_int found.amount1;
      tx_hash = tx_hash_of log.transaction_hash;
      log_index = log_index;
    })
