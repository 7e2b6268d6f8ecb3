-- ===== src/Ingestion/Event.antt =====
-- `TickDataEvent` of ingestion/decoders/uniswap_v3.py: the normalized event that every part of the
-- program shares, and its dictionary form. The texts that the program compares are its constants.
use ai_quantum.Common.{ℕ}
use ai_quantum.Common.Text.{Text, codes}

pub record TickDataEvent : Type 0 where
  pub block_number : ℕ
  pub block_timestamp : Text
  pub protocol : Text
  pub event_type : Text
  pub pool_address : Text
  pub token0 : Text
  pub token1 : Text
  pub amount0 : Text
  pub amount1 : Text
  pub tx_hash : Text
  pub log_index : ℕ

unfoldable pub swap : Text
swap = codes "swap"

unfoldable pub mint : Text
mint = codes "mint"

unfoldable pub burn : Text
burn = codes "burn"

unfoldable pub supply : Text
supply = codes "supply"

unfoldable pub borrow : Text
borrow = codes "borrow"

unfoldable pub withdraw : Text
withdraw = codes "withdraw"

unfoldable pub liquidation : Text
liquidation = codes "liquidation"

unfoldable pub uniswap_v3 : Text
uniswap_v3 = codes "uniswap_v3"

unfoldable pub aave_v3 : Text
aave_v3 = codes "aave_v3"
