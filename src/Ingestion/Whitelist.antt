-- ===== src/Ingestion/Whitelist.antt =====
-- ingestion/whitelist.py. The YAML parser is not modelled: `raw` is the mapping that it returns.
pub mod Lookup
mod Tests
use ai_quantum.Common.{
  Bool, true, false, List, [], ◌∷◌, Option, none, some, Outcome, ok, err, ℕ, length, map,
}
use ai_quantum.Common.Text.{Text, codes, lower}
use ai_quantum.Common.Eq.{text_eq_instance}
use ai_quantum.Common.Dict.{get, put, keys}

unfoldable pub zero_address : Text
zero_address = codes "0x0000000000000000000000000000000000000000"

-- `PoolMeta` of ingestion/decoders/uniswap_v3.py.
pub record PoolMeta : Type 0 where
  pub token0 : Text
  pub token1 : Text

pub record WhitelistEntry : Type 0 where
  pub protocol : Text
  pub pool_meta : PoolMeta

-- What the YAML says of an address. A missing `protocol` raises `KeyError`.
pub record RawMeta : Type 0 where
  pub protocol : Option Text
  pub token0 : Option Text
  pub token1 : Option Text

pub data KeyError : Type 0 where
  missing_protocol : KeyError

abbrev pub ContractWhitelist : Type 0
ContractWhitelist = List (Text × WhitelistEntry)

abbrev pub or_zero : Option Text → Text
or_zero none = zero_address
or_zero (some t) = t

abbrev pub entry_of : Text → RawMeta → WhitelistEntry
entry_of protocol meta = record {
  protocol = protocol;
  pool_meta = record { token0 = or_zero meta.token0; token1 = or_zero meta.token1 };
}

-- `from_yaml`, after the parser.
load_from : ContractWhitelist → List (Text × RawMeta) → Outcome KeyError ContractWhitelist
load_from entries [] = ok entries
load_from entries ((addr, meta) ∷ raw) = elim meta.protocol [
  | none ↦ err missing_protocol
  | some protocol ↦ load_from (put (lower addr) (entry_of protocol meta) entries) raw
]

unfoldable pub from_yaml : List (Text × RawMeta) → Outcome KeyError ContractWhitelist
unfolding load_from
from_yaml raw = load_from [] raw

unfoldable pub addresses : ContractWhitelist → List Text
addresses w = keys w

unfoldable pub find : ContractWhitelist → Text → Option WhitelistEntry
find w address = get (lower address) w

-- `__contains__`.
unfoldable pub has : ContractWhitelist → Text → Bool
has w address = elim (get (lower address) w) [ none ↦ false | some e ↦ true ]

pub len : ContractWhitelist → ℕ
len w = length w
