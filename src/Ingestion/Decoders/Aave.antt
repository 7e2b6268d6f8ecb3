-- ===== src/Ingestion/Decoders/Aave.antt =====
-- `AaveV3Decoder` of ingestion/decoders/aave_v3.py.
use ai_quantum.Common.{Option, ℕ, List, [], ◌∷◌, if◌then◌else◌, Outcome, ok, err, ◌>>=◌}
use ai_quantum.Common.Int.{ℤ, pos}
use ai_quantum.Common.Text.{Text, codes, text_eq}
use ai_quantum.Common.Text.Number.{str_int}
use ai_quantum.Ingestion.Event.{TickDataEvent, supply, borrow, withdraw, liquidation, aave_v3}
use ai_quantum.Ingestion.Whitelist.{PoolMeta, zero_address}
use ai_quantum.Ingestion.Decoders.{
  Raw, Log, DecodeError, unknown_topic, bad_abi, bad_time, AbiType, uint256, address, bool, Abi,
  normalize, tx_hash_of, to_data_bytes, to_int, topic_at, number_at, topic_to_addr, from_option,
}

unfoldable pub supply_topic : Text
supply_topic = codes "0x2b627736bca15cd5381dcf80b0bf11fd197d01a037c52b927a881a10fb73ba61"

unfoldable pub borrow_topic : Text
borrow_topic = codes "0xb3d084820fb1a9decffb176436bd02558d15fac9b0ddfed8c465bc7359d7dce0"

unfoldable pub withdraw_topic : Text
withdraw_topic = codes "0x3115d1449a7b732c986cba18244e897a450f61e1bb8d589cd2e69e6c8924f9f7"

unfoldable pub liquidation_topic : Text
liquidation_topic = codes "0xe413a321e8681d831f4dbccbca790d2952b56f977908e45be37335533e005286"

abbrev pub supply_types : List AbiType
supply_types = address ∷ uint256 ∷ []

abbrev pub borrow_types : List AbiType
borrow_types = address ∷ uint256 ∷ uint256 ∷ uint256 ∷ []

abbrev pub withdraw_types : List AbiType
withdraw_types = uint256 ∷ []

abbrev pub liquidation_types : List AbiType
liquidation_types = uint256 ∷ uint256 ∷ address ∷ bool ∷ []

pub record Movement : Type 0 where
  pub event_type : Text
  pub amount0 : ℤ
  pub amount1 : ℤ
  pub token0 : Text
  pub token1 : Text

module _ (abi : Abi) (ts_to_iso : ℕ → Option Text) where
  -- The branches with one asset: its address in the first indexed topic.
  unfoldable pub single_asset :
      Text → List AbiType → ℕ → List Raw → List ℕ → Outcome DecodeError Movement
  single_asset event_type types i topics payload = do
    decoded ← from_option bad_abi (abi.decode types payload)
    amount ← number_at decoded i
    topic ← topic_at topics 1
    token ← topic_to_addr topic
    ok (record {
      event_type = event_type;
      amount0 = amount;
      amount1 = pos 0;
      token0 = token;
      token1 = zero_address;
    })

  -- The collateral is first, and the debt second in the topics but first in the data.
  unfoldable pub two_assets : List Raw → List ℕ → Outcome DecodeError Movement
  two_assets topics payload = do
    decoded ← from_option bad_abi (abi.decode liquidation_types payload)
    collateral ← number_at decoded 1
    debt ← number_at decoded 0
    topic1 ← topic_at topics 1
    token0 ← topic_to_addr topic1
    topic2 ← topic_at topics 2
    token1 ← topic_to_addr topic2
    ok (record {
      event_type = liquidation;
      amount0 = collateral;
      amount1 = debt;
      token0 = token0;
      token1 = token1;
    })

  unfoldable pub movement_of : Text → List Raw → List ℕ → Outcome DecodeError Movement
  unfolding single_asset two_assets
  movement_of topic0 topics payload =
      if text_eq topic0 supply_topic
      then single_asset supply supply_types 1 topics payload
      else if text_eq topic0 borrow_topic
      then single_asset borrow borrow_types 1 topics payload
      else if text_eq topic0 withdraw_topic
      then single_asset withdraw withdraw_types 0 topics payload
      else if text_eq topic0 liquidation_topic
      then two_assets topics payload
      else err (unknown_topic topic0)

  unfoldable pub decode : Log → PoolMeta → ℕ → Outcome DecodeError TickDataEvent
  unfolding movement_of
  decode log pool_meta block_timestamp = do
    topic ← topic_at log.topics 0
    payload ← to_data_bytes log.payload
    found ← movement_of (normalize topic) log.topics payload
    block_number ← to_int log.block_number
    time ← from_option bad_time (ts_to_iso block_timestamp)
    log_index ← to_int log.log_index
    ok (record {
      block_number = block_number;
      block_timestamp = time;
      protocol = aave_v3;
      event_type = found.event_type;
      pool_address = normalize log.address;
      token0 = found.token0;
      token1 = found.token1;
      amount0 = str_int found.amount0;
      amount1 = str_int found.amount1;
      tx_hash = tx_hash_of log.transaction_hash;
      log_index = log_index;
    })
