-- ===== src/Tools/MockWss/RawLog.antt =====
-- `build_raw_log` of tools/mock_wss/replay.py: a fixture row as the raw log that a node would send.
-- A row is a `TickDataEvent`, whose columns it has. The keys blockHash and removed of the log are
-- left out: no consumer reads them.
use ai_quantum.Common.{
  ℕ, false, List, [], ◌∷◌, ◌++◌, Option, none, some, if◌then◌else◌, Outcome, ok, err, replicate,
  map,
}
use ai_quantum.Common.Int.{ℤ, pos}
use ai_quantum.Common.Text.{Text, codes, text_eq, lower, removeprefix}
use ai_quantum.Common.Text.Hex.{hex}
use ai_quantum.Common.Text.Number.{int_of, hex_int}
use ai_quantum.Ingestion.Event.{
  TickDataEvent, swap, mint, burn, supply, borrow, withdraw, liquidation,
}
use ai_quantum.Ingestion.Whitelist.{zero_address}
use ai_quantum.Ingestion.Decoders.{
  str, text, Log, AbiType, int256, int24, uint256, uint160, uint128, address, bool, AbiValue,
  number, account, truth, Abi,
}
use ai_quantum.Ingestion.Decoders.Uniswap.{swap_topic, mint_topic, burn_topic}
use ai_quantum.Ingestion.Decoders.Aave.{
  supply_topic, borrow_topic, withdraw_topic, liquidation_topic,
}

-- The `ValueError`s of `build_raw_log`.
pub data ReplayError : Type 0 where
  bad_amount cannot_encode : ReplayError

abbrev pub zero_bytes : ℕ → Text
zero_bytes n = hex (replicate n 0)

-- `_addr_topic`.
unfoldable pub addr_topic : Text → Text
addr_topic addr = codes "0x" ++ (zero_bytes 12 ++ removeprefix (codes "0x") (lower addr))

unfoldable pub zero_word : Text
zero_word = codes "0x" ++ zero_bytes 32

-- `_EVENT_TOPIC0.get(event_type, ...)`. The dictionary's values are the decoders' constants.
unfoldable pub topic0_of : Text → Text
topic0_of event_type =
    if text_eq event_type swap
    then swap_topic
    else if text_eq event_type mint
    then mint_topic
    else if text_eq event_type burn
    then burn_topic
    else if text_eq event_type supply
    then supply_topic
    else if text_eq event_type borrow
    then borrow_topic
    else if text_eq event_type withdraw
    then withdraw_topic
    else if text_eq event_type liquidation
    then liquidation_topic
    else zero_word

-- The indexed topics after the first, and what is handed to `abi_encode`.
pub record Encoding : Type 0 where
  pub tail : List Text
  pub types : List AbiType
  pub values : List AbiValue

abbrev pub zero : AbiValue
zero = number (pos 0)

abbrev pub nobody : Text
nobody = addr_topic zero_address

-- `_encode_event`, before the call of `abi_encode`.
unfoldable pub encode_event : Text → ℤ → ℤ → Text → Text → Encoding
encode_event event_type amount0 amount1 token0 token1 =
    if text_eq event_type swap
    then record {
      tail = nobody ∷ nobody ∷ [];
      types = int256 ∷ int256 ∷ uint160 ∷ uint128 ∷ int24 ∷ [];
      values = number amount0 ∷ number amount1 ∷ zero ∷ zero ∷ zero ∷ [];
    }
    else if text_eq event_type mint
    then record {
      tail = nobody ∷ zero_word ∷ zero_word ∷ [];
      types = address ∷ uint128 ∷ uint256 ∷ uint256 ∷ [];
      values = account zero_address ∷ zero ∷ number amount0 ∷ number amount1 ∷ [];
    }
    else if text_eq event_type burn
    then record {
      tail = nobody ∷ zero_word ∷ zero_word ∷ [];
      types = uint128 ∷ uint256 ∷ uint256 ∷ [];
      values = zero ∷ number amount0 ∷ number amount1 ∷ [];
    }
    else if text_eq event_type supply
    then record {
      tail = addr_topic token0 ∷ nobody ∷ zero_word ∷ [];
      types = address ∷ uint256 ∷ [];
      values = account zero_address ∷ number amount0 ∷ [];
    }
    else if text_eq event_type borrow
    then record {
      tail = addr_topic token0 ∷ nobody ∷ zero_word ∷ [];
      types = address ∷ uint256 ∷ uint256 ∷ uint256 ∷ [];
      values = account zero_address ∷ number amount0 ∷ zero ∷ zero ∷ [];
    }
    else if text_eq event_type withdraw
    then record {
      tail = addr_topic token0 ∷ nobody ∷ nobody ∷ [];
      types = uint256 ∷ [];
      values = number amount0 ∷ [];
    }
    else if text_eq event_type liquidation
    then record {
      tail = addr_topic token0 ∷ addr_topic token1 ∷ nobody ∷ [];
      types = uint256 ∷ uint256 ∷ address ∷ bool ∷ [];
      values = number amount1 ∷ number amount0 ∷ account zero_address ∷ truth false ∷ [];
    }
    else record {
      tail = [];
      types = int256 ∷ int256 ∷ [];
      values = number amount0 ∷ number amount1 ∷ [];
    }

-- The log of a row, from the encoded parts.
abbrev pub raw_log : TickDataEvent → List Text → List ℕ → Log
raw_log row tail payload = record {
  address = str row.pool_address;
  topics = str (topic0_of row.event_type) ∷ map str tail;
  payload = str (codes "0x" ++ hex payload);
  block_number = text (hex_int row.block_number);
  transaction_hash = str row.tx_hash;
  log_index = text (hex_int row.log_index);
}

module _ (abi : Abi) where
  abbrev pub assemble : TickDataEvent → Encoding → Option (List ℕ) → Outcome ReplayError Log
  assemble row e none = err cannot_encode
  assemble row e (some payload) = ok (raw_log row e.tail payload)

  unfoldable pub encode_row : TickDataEvent → ℤ → ℤ → Outcome ReplayError Log
  encode_row row amount0 amount1 =
      let e = encode_event row.event_type amount0 amount1 row.token0 row.token1 in
      assemble row e (abi.encode e.types e.values)

  unfoldable pub build_raw_log : TickDataEvent → Outcome ReplayError Log
  unfolding encode_row
  build_raw_log row = elim (int_of row.amount0) [
    | none ↦ err bad_amount
    | some a₀ ↦ elim (int_of row.amount1) [ none ↦ err bad_amount | some a₁ ↦ encode_row row a₀ a₁ ]
  ]
