-- ===== src/Ingestion/Decoders.antt =====
-- What the two decoders share (ingestion/decoders/uniswap_v3.py): the shape of a raw log and the
-- helpers that normalize its fields. A field is bytes where web3 parsed it, and text where the node
-- or the mock server sent JSON. The ABI codec and the calendar are parameters.
pub mod Uniswap
pub mod Aave
use ai_quantum.Common.{
  ℕ, suc, ◌-◌, Bool, List, [], ◌∷◌, ◌++◌, Option, none, some, if◌then◌else◌, Outcome, ok, err,
  length, drop, ◌≡◌,
}
use ai_quantum.Common.Int.{ℤ, pos, negsuc}
use ai_quantum.Common.Text.{Text, codes, lower, starts_with, removeprefix}
use ai_quantum.Common.Text.Hex.{hex, fromhex, AreBytes}
use ai_quantum.Common.Text.Number.{read_digits, int_of}

pub data Raw : Type 0 where
  bytes : List ℕ → Raw
  str : Text → Raw

pub data RawInt : Type 0 where
  int : ℕ → RawInt
  text : Text → RawInt

pub record Log : Type 0 where
  pub address : Raw
  pub topics : List Raw
  pub payload : Raw
  pub block_number : RawInt
  pub transaction_hash : Raw
  pub log_index : RawInt

-- What a decoder raises.
pub data DecodeError : Type 0 where
  -- `ValueError` on the topic.
  unknown_topic : Text → DecodeError
  -- `IndexError` on the topics.
  missing_topic : DecodeError
  -- `ValueError` of `bytes.fromhex` or `int`.
  bad_hex bad_int : DecodeError
  -- What `eth_abi` raises.
  bad_abi : DecodeError
  -- `IndexError` on the decoded tuple.
  missing_value : DecodeError
  -- What `datetime.fromtimestamp` raises of a time out of its range.
  bad_time : DecodeError

-- The types and values of the ABI that the program names.
pub data AbiType : Type 0 where
  int256 int24 uint256 uint160 uint128 address bool : AbiType

pub data AbiValue : Type 0 where
  number : ℤ → AbiValue
  account : Text → AbiValue
  truth : Bool → AbiValue

-- `eth_abi`: `none` is an exception. Decoding undoes encoding, and an encoding is a byte string.
pub record Abi : Type 0 where
  pub encode : List AbiType → List AbiValue → Option (List ℕ)
  pub decode : List AbiType → List ℕ → Option (List AbiValue)

pub record AbiLaws (abi : Abi) : Type 0 where
  pub decode-encode :
      (ts : List AbiType) (vs : List AbiValue) (data' : List ℕ)
      → abi.encode ts vs ≡ some data'
      → abi.decode ts data' ≡ some vs
  pub encode-AreBytes :
      (ts : List AbiType) (vs : List AbiValue) (data' : List ℕ)
      → abi.encode ts vs ≡ some data'
      → AreBytes data'

-- `s if s.startswith("0x") else "0x" + s`.
unfoldable pub with_0x : Text → Text
with_0x s = if starts_with (codes "0x") s then s else codes "0x" ++ s

-- `_topic_hex` and `_addr`, which are one function.
unfoldable pub normalize : Raw → Text
unfolding with_0x
normalize (bytes b) = codes "0x" ++ hex b
normalize (str s) = with_0x (lower s)

-- `_tx_hash` does not change the case.
unfoldable pub tx_hash_of : Raw → Text
unfolding with_0x
tx_hash_of (bytes b) = with_0x (hex b)
tx_hash_of (str s) = with_0x s

unfoldable pub from_option {ℓ} : {A : Type ℓ} → DecodeError → Option A → Outcome DecodeError A
from_option e none = err e
from_option e (some a) = ok a

unfoldable pub to_data_bytes : Raw → Outcome DecodeError (List ℕ)
unfolding from_option
to_data_bytes (bytes b) = ok b
to_data_bytes (str s) = from_option bad_hex (fromhex (removeprefix (codes "0x") s))

abbrev natural : Option ℤ → Option ℕ
natural (some (pos n)) = some n
natural _ = none

-- `_to_int` of a block number or a log index. A negative one is none that a node sends, and raises
-- here.
unfoldable pub to_int : RawInt → Outcome DecodeError ℕ
unfolding from_option
to_int (int n) = ok n
to_int (text s) =
    if starts_with (codes "0x") s
    then from_option bad_int (read_digits 16 (removeprefix (codes "0x") s))
    else from_option bad_int (natural (int_of s))

unfoldable pub topic_at : List Raw → ℕ → Outcome DecodeError Raw
topic_at [] n = err missing_topic
topic_at (t ∷ ts) ℕ.zero = ok t
topic_at (t ∷ ts) (suc n) = topic_at ts n

-- `int(decoded[i])`.
unfoldable pub number_at : List AbiValue → ℕ → Outcome DecodeError ℤ
number_at [] n = err missing_value
number_at (number z ∷ vs) ℕ.zero = ok z
number_at (v ∷ vs) ℕ.zero = err missing_value
number_at (v ∷ vs) (suc n) = number_at vs n

-- `_topic_to_addr`: the last 20 bytes.
unfoldable pub topic_to_addr : Raw → Outcome DecodeError Text
unfolding to_data_bytes
topic_to_addr t = elim (to_data_bytes t) [
  | err e ↦ err e
  | ok b ↦ ok (codes "0x" ++ hex (drop (length b - 20) b))
]
