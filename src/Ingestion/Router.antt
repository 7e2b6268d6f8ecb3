-- ===== src/Ingestion/Router.antt =====
-- ingestion/router.py: a log goes to the decoder of its contract's protocol. The JSON Schema
-- validator is a parameter, `valid`.
use ai_quantum.Common.{ℕ, Bool, ◌++◌, Option, none, some, if◌then◌else◌, Outcome, ok, err}
use ai_quantum.Common.Text.{Text, codes, text_eq, lower}
use ai_quantum.Common.Text.Hex.{hex}
use ai_quantum.Ingestion.Event.{TickDataEvent, uniswap_v3, aave_v3}
use ai_quantum.Ingestion.Whitelist.{ContractWhitelist, WhitelistEntry, find}
use ai_quantum.Ingestion.Decoders.{bytes, str, Log, DecodeError, Abi}
use ai_quantum.Ingestion.Decoders.Uniswap
use ai_quantum.Ingestion.Decoders.Aave

-- What `route_validated` raises.
pub data RouteError : Type 0 where
  decode_error : DecodeError → RouteError
  schema_violation : RouteError

-- `_log_address`.
unfoldable pub log_address : Log → Text
log_address log = elim log.address [ bytes b ↦ codes "0x" ++ hex b | str s ↦ lower s ]

abbrev pub some_event :
    Outcome DecodeError TickDataEvent → Outcome DecodeError (Option TickDataEvent)
some_event (ok e) = ok (some e)
some_event (err e) = err e

module _ (abi : Abi) (ts_to_iso : ℕ → Option Text) (valid : TickDataEvent → Bool)
    (w : ContractWhitelist) where
  abbrev dispatch : Log → ℕ → WhitelistEntry → Outcome DecodeError (Option TickDataEvent)
  dispatch log block_timestamp entry =
      if text_eq entry.protocol uniswap_v3
      then some_event (Uniswap.decode abi ts_to_iso log entry.pool_meta block_timestamp)
      else if text_eq entry.protocol aave_v3
      then some_event (Aave.decode abi ts_to_iso log entry.pool_meta block_timestamp)
      else ok none

  unfoldable pub route : Log → ℕ → Outcome DecodeError (Option TickDataEvent)
  route log block_timestamp = elim (find w (log_address log)) [
    | none ↦ ok none
    | some entry ↦ dispatch log block_timestamp entry
  ]

  abbrev pub validated :
      Outcome DecodeError (Option TickDataEvent) → Outcome RouteError (Option TickDataEvent)
  validated (err e) = err (decode_error e)
  validated (ok none) = ok none
  validated (ok (some event)) = if valid event then ok (some event) else err schema_violation

  unfoldable pub route_validated : Log → ℕ → Outcome RouteError (Option TickDataEvent)
  unfolding route
  route_validated log block_timestamp = validated (route log block_timestamp)
