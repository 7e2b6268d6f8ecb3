-- ===== src/Tools/ExtractFixtures.antt =====
-- tools/extract_fixtures.py: the registry of contracts, the periods and the shape of a row.
pub mod Etherscan
pub mod Decoding
pub mod Fetch
pub mod Main
mod Tests
use ai_quantum.Common.{ℕ, List}
use ai_quantum.Common.Text.{Text, codes}

unfoldable pub zero_addr : Text
zero_addr = codes "0x0000000000000000000000000000000000000000"

unfoldable pub univ3_usdc_weth : Text
univ3_usdc_weth = codes "0x88e6A0c2dDD26FEEb64F039a2c41296FcB3f5640"

unfoldable pub univ3_usdc : Text
univ3_usdc = codes "0xA0b86991c6218b36c1d19D4a2e9Eb0cE3606eB48"

unfoldable pub univ3_weth : Text
univ3_weth = codes "0xC02aaA39b223FE8D0A0e5C4F27eAD9083C756Cc2"

unfoldable pub univ3_swap_topic : Text
univ3_swap_topic = codes "0xc42079f94a6350d7e6235f29174924f928cc2ac818eb64fed8004e115fbcca67"

unfoldable pub aave_v2_pool : Text
aave_v2_pool = codes "0x7d2768dE32b0b80b7a3454c06BdAc94A69DDc7A9"

unfoldable pub aave_v2_borrow_topic : Text
aave_v2_borrow_topic = codes "0xc6a898309e823ee50bac64e45ca8adba6690e99e7841c45d754e2a38e9019d9b"

unfoldable pub aave_v2_deposit_topic : Text
aave_v2_deposit_topic = codes "0xde6857219544bb5b7746f48ed30be6386fefc61b2f864cacf559893bf50fd951"

unfoldable pub liquidation_topic : Text
liquidation_topic = codes "0xe413a321e8681d831f4dbccbca790d2952b56f977908e45be37335533e005286"

unfoldable pub aave_v3_pool : Text
aave_v3_pool = codes "0x87870Bca3F3fD6335C3F4ce8392D69350B4fA4E2"

unfoldable pub aave_v3_borrow_topic : Text
aave_v3_borrow_topic = codes "0xb3d084820fb1a9decffb176436bd02558d15fac9b0ddfed8c465bc7359d7dce0"

unfoldable pub aave_v3_supply_topic : Text
aave_v3_supply_topic = codes "0x2b627736bca15cd5381dcf80b0bf11fd197d01a037c52b927a881a10fb73ba61"

pub record Period : Type 0 where
  pub name : Text
  pub from_block : ℕ
  pub to_block : ℕ
  pub filename : Text
  pub aave_version : Text

-- The three of `PERIODS`.
abbrev pub luna : Period
luna = record {
  name = codes "luna";
  from_block = 14724000;
  to_block = 14740000;
  filename = codes "luna_2022_05_09.csv";
  aave_version = codes "v2";
}

abbrev pub ftx : Period
ftx = record {
  name = codes "ftx";
  from_block = 15900000;
  to_block = 15925000;
  filename = codes "ftx_2022_11_08.csv";
  aave_version = codes "v2";
}

abbrev pub normal : Period
normal = record {
  name = codes "normal";
  from_block = 16820000;
  to_block = 16825000;
  filename = codes "normal_2023_03_15.csv";
  aave_version = codes "v3";
}

-- A log as Etherscan gives it.
pub record Log : Type 0 where
  pub address : Text
  pub topics : List Text
  pub payload : Text
  pub block_number : Text
  pub time_stamp : Text
  pub transaction_hash : Text
  pub log_index : Text
