-- ===== src/Tools/Reconcile/Fetcher.antt =====
-- `make_etherscan_fetcher` and `main` of tools/reconcile_etherscan.py: the events of a block are
-- fetched with the extractor's client and normalized by the router.
pub mod Complete
mod Tests
use ai_quantum.Common.{
  ℕ, Bool, if◌then◌else◌, List, [], ◌∷◌, ◌++◌, map, length, Option, none, some, Outcome, ok, err,
  ◌>>=◌,
}
use ai_quantum.Common.Text.{Text, text_eq}
use ai_quantum.Common.Float.{Float}
use ai_quantum.Ingestion.Event.{TickDataEvent, uniswap_v3, aave_v3}
use ai_quantum.Ingestion.Whitelist.{ContractWhitelist, WhitelistEntry, addresses, find}
use ai_quantum.Ingestion.Decoders.{str, text, Abi}
use ai_quantum.Ingestion.Decoders
use ai_quantum.Ingestion.Decoders.Uniswap.{swap_topic, mint_topic, burn_topic}
use ai_quantum.Ingestion.Decoders.Aave.{
  supply_topic, borrow_topic, withdraw_topic, liquidation_topic,
}
use ai_quantum.Ingestion.Router.{route}
use ai_quantum.Tools.Dotenv.{Environ, get_api_key}
use ai_quantum.Tools.ExtractFixtures.{Log}
use ai_quantum.Tools.ExtractFixtures.Etherscan.{Params, Reply, FetchError, Rows, etherscan_get_logs}
use ai_quantum.Tools.ExtractFixtures.Decoding
use ai_quantum.Tools.ExtractFixtures.Decoding.{int_16}
use ai_quantum.Tools.Reconcile.{
  Chain, sample_blocks, in_sample, index, compare_all, ReconcileResult, result_of,
}

-- What is raised out of a fetch.
pub data FetcherError : Type 0 where
  fetch_error : FetchError → FetcherError
  bad_time : Decoding.DecodeError → FetcherError
  route_error : Decoders.DecodeError → FetcherError
  -- `AttributeError`: an address that the whitelist does not find.
  no_entry : Text → FetcherError
  -- The exit of `_get_api_key`.
  no_api_key : FetcherError

-- `topics`.
unfoldable pub topics_of : Text → List Text
topics_of protocol =
    if text_eq protocol uniswap_v3
    then swap_topic ∷ mint_topic ∷ burn_topic ∷ []
    else if text_eq protocol aave_v3
    then supply_topic ∷ borrow_topic ∷ withdraw_topic ∷ liquidation_topic ∷ []
    else []

-- Etherscan's dictionary, as the decoders read it.
abbrev pub raw_of : Log → Decoders.Log
raw_of log = record {
  address = str log.address;
  topics = map str log.topics;
  payload = str log.payload;
  block_number = text log.block_number;
  transaction_hash = str log.transaction_hash;
  log_index = text log.log_index;
}

abbrev pub Events : Type 0
Events = Outcome FetcherError (List TickDataEvent)

abbrev pub params_at : ℕ → Text → Text → Params
params_at block address topic0 = record {
  from_block = block;
  to_block = block;
  address = address;
  topic0 = topic0;
}

-- Two loops after one another, the second where the first did not raise.
abbrev pub and_then : (ℕ → Events × ℕ) → Events × ℕ → Events × ℕ
and_then next (err e, calls) = (err e, calls)
and_then next (ok events, calls) =
    let (rest, calls') = next calls in (rest >>= (λ more. ok (events ++ more)), calls')

module _ (abi : Abi) (ts_to_iso : ℕ → Option Text) (valid : TickDataEvent → Bool)
    (w : ContractWhitelist) where
  abbrev pub kept : Outcome Decoders.DecodeError (Option TickDataEvent) → Events → Events
  kept (err e) rest = err (route_error e)
  kept (ok none) rest = rest
  kept (ok (some event)) rest = rest >>= (λ events. ok (event ∷ events))

  abbrev pub stamped : Log → Outcome Decoding.DecodeError ℕ → Events → Events
  stamped log (err e) rest = err (bad_time e)
  stamped log (ok block_ts) rest = kept (route abi ts_to_iso valid w (raw_of log) block_ts) rest

  -- The innermost loop.
  unfoldable pub route_all : List Log → Events
  unfolding route int_16
  route_all [] = ok []
  route_all (log ∷ logs) = stamped log (int_16 log.time_stamp) (route_all logs)

  abbrev pub routed : Rows → Events × ℕ
  routed (err e, calls) = (err (fetch_error e), calls)
  routed (ok logs, calls) = (route_all logs, calls)

  module _ (respond : ℕ → Params → Reply) where
    unfoldable pub fetch_topics : ℕ → Text → List Text → ℕ → Events × ℕ
    unfolding route_all
    fetch_topics block address [] calls = (ok [], calls)
    fetch_topics block address (topic0 ∷ topics) calls =
        and_then (fetch_topics block address topics)
          (routed (etherscan_get_logs respond calls (params_at block address topic0)))

    abbrev pub of_entry : ℕ → Text → Option WhitelistEntry → ℕ → Events × ℕ
    of_entry block address none calls = (err (no_entry address), calls)
    of_entry block address (some entry) calls =
        fetch_topics block address (topics_of entry.protocol) calls

    unfoldable pub fetch_addresses : ℕ → List Text → ℕ → Events × ℕ
    unfolding fetch_topics topics_of
    fetch_addresses block [] calls = (ok [], calls)
    fetch_addresses block (address ∷ rest) calls =
        and_then (fetch_addresses block rest) (of_entry block address (find w address) calls)

    -- `fetch`.
    unfoldable pub fetch : ℕ → ℕ → Events × ℕ
    unfolding fetch_addresses
    fetch block calls = fetch_addresses block (addresses w) calls

    abbrev pub then_index :
        Chain
        → (Chain → ℕ → Outcome FetcherError Chain × ℕ)
        → Events × ℕ
        → Outcome FetcherError Chain × ℕ
    then_index chain next (err e, calls) = (err e, calls)
    then_index chain next (ok events, calls) = next (index chain events) calls

    -- The loop of `reconcile` that fills `onchain`, where a fetch may raise.
    unfoldable pub fetch_onchain : List ℕ → Chain → ℕ → Outcome FetcherError Chain × ℕ
    unfolding fetch index
    fetch_onchain [] chain calls = (ok chain, calls)
    fetch_onchain (block ∷ blocks) chain calls =
        then_index chain (fetch_onchain blocks) (fetch block calls)

    module _ {F : Type 0} ⦃f : Float F⦄ (gate : F) where
      abbrev pub status_of :
          List TickDataEvent → Outcome FetcherError Chain → Outcome FetcherError ℕ
      status_of buf (err e) = err e
      status_of buf (ok chain) =
          let result = result_of gate buf chain in ok (if result.ok then 0 else 1)

      abbrev pub with_key : List TickDataEvent → List ℕ → Option Text → Outcome FetcherError ℕ
      with_key events sample none = err no_api_key
      with_key events sample (some api_key) =
          status_of (in_sample sample events) (fetch_onchain sample [] 0).0

      -- Without a block there is nothing to reconcile, and the key is not asked for.
      abbrev pub unless_no_sample :
          List TickDataEvent → List ℕ → Option Text → Outcome FetcherError ℕ
      unless_no_sample events [] api_key = ok 1
      unless_no_sample events (block ∷ blocks) api_key = with_key events (block ∷ blocks) api_key

      -- `main`, from the events of the filled buffer: its exit status. `env_file` is the lines of
      -- `.env`.
      unfoldable pub main :
          (List ℕ → ℕ → List ℕ)
          → Option (List Text)
          → Environ
          → List TickDataEvent
          → ℕ
          → Outcome FetcherError ℕ
      unfolding sample_blocks in_sample fetch_onchain
      main pick env_file environ events samples =
          unless_no_sample events (sample_blocks pick events samples) (get_api_key env_file environ)
