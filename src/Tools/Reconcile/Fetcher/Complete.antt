-- ===== src/Tools/Reconcile/Fetcher/Complete.antt =====
-- What the reconciliation against an honest API says.
use ai_quantum.Tools.Dotenv.{Environ, get_api_key}
use ai_quantum.Common.{
  ◌==◌, Bool-cases, inl, inr, Option, ℕ, ◌≡◌, refl, ap, sym, ◌∙◌, Bool, false, if◌then◌else◌, List,
  [], ◌∷◌, ◌++◌, length, some, Outcome, ok, err, arith,
}
use ai_quantum.Common.Text.{Text}
use ai_quantum.Common.Float.{Float}
use ai_quantum.Common.Set.{contains, IsUnique}
use ai_quantum.Ingestion.Event.{TickDataEvent}
use ai_quantum.Ingestion.Whitelist.{ContractWhitelist, WhitelistEntry, addresses, find}
use ai_quantum.Ingestion.Decoders.{Abi}
use ai_quantum.Tools.ExtractFixtures.{Log}
use ai_quantum.Tools.ExtractFixtures.Etherscan.{Params, Reply, Rows, etherscan_get_logs}
use ai_quantum.Tools.ExtractFixtures.Etherscan.Spans.{History}
use ai_quantum.Tools.ExtractFixtures.Etherscan.Complete.{
  Serves, logs_between, etherscan_get_logs_lem,
}
use ai_quantum.Tools.ExtractFixtures.Fetch.Sorted.{CanFetch, fetches_all}
use ai_quantum.Tools.VerifyFixtures.{key_instance}
use ai_quantum.Tools.Reconcile.{block_instance, Chain, sample_blocks, index, result_of}
use ai_quantum.Tools.Reconcile.Matched.{
  sampled, in_sample-sampled, twins, keys_of, index-append, compare_all-twins,
}
use ai_quantum.Tools.Reconcile.Fetcher.{
  FetcherError, topics_of, Events, params_at, and_then, route_all, routed, fetch_topics, of_entry,
  fetch_addresses, fetch, then_index, fetch_onchain, unless_no_sample, main,
}

and_then-ok :
    (next : ℕ → Events × ℕ) (first : Events × ℕ) (events more : List TickDataEvent)
    → first.0 ≡ ok events
    → ((c : ℕ) → (next c).0 ≡ ok more)
    → (and_then next first).0 ≡ ok (events ++ more)
and_then-ok next (err e, c) events more h k = cc h
and_then-ok next (ok es, c) events more h k =
    let same : es ≡ events = ground (arith, h) in rw (k c, same) refl

module _ (abi : Abi) (ts_to_iso : ℕ → Option Text) (valid : TickDataEvent → Bool)
    (w : ContractWhitelist) (h : History) where
  routed-ok :
      (rows : Rows) (logs : List Log) (events : List TickDataEvent)
      → rows.0 ≡ ok logs
      → route_all abi ts_to_iso valid w logs ≡ ok events
      → (routed abi ts_to_iso valid w rows).0 ≡ ok events
  routed-ok (err e, c) logs events r k = cc r
  routed-ok (ok ls, c) logs events r k = let same : ls ≡ logs = ground (arith, r) in rw same k

  -- What a block's logs of a contract route to, topic after topic.
  pub data AreOfTopics (block : ℕ) (address : Text) : List Text → List TickDataEvent → Type 0 where
    no_topic : AreOfTopics block address [] []
    then_topic :
        (topic0 : Text) (topics : List Text) (events more : List TickDataEvent)
        → CanFetch h (params_at block address topic0)
        → route_all abi ts_to_iso valid w (logs_between h (params_at block address topic0))
          ≡ ok events
        → AreOfTopics block address topics more
        → AreOfTopics block address (topic0 ∷ topics) (events ++ more)

  -- The same for the contracts of a list, each of which the whitelist finds.
  pub data AreOfAddresses (block : ℕ) : List Text → List TickDataEvent → Type 0 where
    no_address : AreOfAddresses block [] []
    then_address :
        (address : Text) (rest : List Text) (entry : WhitelistEntry)
        (events more : List TickDataEvent)
        → find w address ≡ some entry
        → AreOfTopics block address (topics_of entry.protocol) events
        → AreOfAddresses block rest more
        → AreOfAddresses block (address ∷ rest) (events ++ more)

  -- The same for the whole whitelist in the blocks of a list.
  pub data AreOfBlocks : List ℕ → List TickDataEvent → Type 0 where
    no_block : AreOfBlocks [] []
    then_block :
        (block : ℕ) (blocks : List ℕ) (events more : List TickDataEvent)
        → AreOfAddresses block (addresses w) events
        → AreOfBlocks blocks more
        → AreOfBlocks (block ∷ blocks) (events ++ more)

  module _ (respond : ℕ → Params → Reply) (s : Serves h respond) where
    fetch_topics-AreOfTopics :
        (block : ℕ) (address : Text) (topics : List Text) (events : List TickDataEvent) (calls : ℕ)
        → AreOfTopics block address topics events
        → (fetch_topics abi ts_to_iso valid w respond block address topics calls).0 ≡ ok events
    unfolding fetch_topics
    fetch_topics-AreOfTopics block address topics events calls no_topic = refl
    fetch_topics-AreOfTopics block address topics events calls
          (then_topic topic0 ts es more c e a) =
        let p = params_at block address topic0 in
        let rows = etherscan_get_logs respond calls p in
        let all =
          fetches_all h respond s p rows.0 c
            (etherscan_get_logs_lem h respond calls p s c.some_block) in
        and_then-ok (fetch_topics abi ts_to_iso valid w respond block address ts)
          (routed abi ts_to_iso valid w rows) es more (routed-ok rows (logs_between h p) es all e)
          (λ calls'. fetch_topics-AreOfTopics block address ts more calls' a)

    fetch_addresses-AreOfAddresses :
        (block : ℕ) (list : List Text) (events : List TickDataEvent) (calls : ℕ)
        → AreOfAddresses block list events
        → (fetch_addresses abi ts_to_iso valid w respond block list calls).0 ≡ ok events
    unfolding fetch_addresses
    fetch_addresses-AreOfAddresses block list events calls no_address = refl
    fetch_addresses-AreOfAddresses block list events calls
          (then_address address rest entry es more found topics others) =
        and_then-ok (fetch_addresses abi ts_to_iso valid w respond block rest)
          (of_entry abi ts_to_iso valid w respond block address (find w address) calls) es more
          (rw found
            (fetch_topics-AreOfTopics block address (topics_of entry.protocol) es calls topics))
          (λ calls'. fetch_addresses-AreOfAddresses block rest more calls' others)

    then_index-ok :
        (chain : Chain) (next : Chain → ℕ → Outcome FetcherError Chain × ℕ) (fetched : Events × ℕ)
        (events : List TickDataEvent) (result : Chain)
        → fetched.0 ≡ ok events
        → ((c : ℕ) → (next (index chain events) c).0 ≡ ok result)
        → (then_index abi ts_to_iso valid w respond chain next fetched).0 ≡ ok result
    then_index-ok chain next (err e, c) events result f k = cc f
    then_index-ok chain next (ok es, c) events result f k =
        let same : es ≡ events = ground (arith, f) in rw same (k c)

    fetch_onchain-AreOfBlocks :
        (blocks : List ℕ) (chain : Chain) (all : List TickDataEvent) (calls : ℕ)
        → AreOfBlocks blocks all
        → (fetch_onchain abi ts_to_iso valid w respond blocks chain calls).0 ≡ ok (index chain all)
    unfolding fetch_onchain fetch index
    fetch_onchain-AreOfBlocks blocks chain all calls no_block = refl
    fetch_onchain-AreOfBlocks blocks chain all calls (then_block block rest es more a others) =
        then_index-ok chain (fetch_onchain abi ts_to_iso valid w respond rest)
          (fetch abi ts_to_iso valid w respond block calls) es (index chain (es ++ more))
          (fetch_addresses-AreOfAddresses block (addresses w) es calls a)
          (λ calls'.
            fetch_onchain-AreOfBlocks rest (index chain es) more calls' others
            ∙ ap (λ (d : Chain). ok d) (sym (index-append chain es more)))

    sampled-none : (events : List TickDataEvent) → sampled [] events ≡ []
    unfolding sampled contains
    sampled-none [] = refl
    sampled-none (e ∷ es) = sampled-none es

    module _ {F : Type 0} ⦃f : Float F⦄ (gate : F) where
      -- The exit status for the events of the buffer, given those of the chain.
      abbrev pub expected_status : List TickDataEvent → List TickDataEvent → ℕ
      expected_status all buf =
          if length buf == 0
          then 1
          else if f.le gate (f.div (f.of_ℕ (twins all buf)) (f.of_ℕ (length buf)))
          then 0
          else 1

      status-expected :
          (all buf : List TickDataEvent)
          → IsUnique (keys_of all)
          → f.le gate (f.of_ℕ 0) ≡ false
          → (if (result_of gate buf (index [] all)).ok then 0 else 1) ≡ expected_status all buf
      unfolding result_of
      status-expected all buf unique zero =
          let (count, every) = compare_all-twins all buf unique in
          elim (Bool-cases (length buf == 0)) [
            | inl empty ↦ rw (empty, zero) refl
            | inr more ↦ rw (more, count) refl
          ]

      unless_no_sample-verdict :
          (events : List TickDataEvent) (sample : List ℕ) (all : List TickDataEvent)
          (api_key : Text)
          → AreOfBlocks sample all
          → IsUnique (keys_of all)
          → f.le gate (f.of_ℕ 0) ≡ false
          → unless_no_sample abi ts_to_iso valid w respond gate events sample (some api_key)
            ≡ ok (expected_status all (sampled sample events))
      unless_no_sample-verdict events [] all api_key blocks unique zero =
          rw (sampled-none events) refl
      unless_no_sample-verdict events (block ∷ rest) all api_key blocks unique zero =
          let sample = block ∷ rest in
          rw (fetch_onchain-AreOfBlocks sample [] all 0 blocks) (
            ap (λ (n : ℕ). ok n)
              (ap
                  (λ (buf : List TickDataEvent).
                    if (result_of gate buf (index [] all)).ok then 0 else 1)
                  (in_sample-sampled sample events)
                ∙ status-expected all (sampled sample events) unique zero))

      -- Where an API key is set, the API answers from the history, with less than five failures in
      -- a row, no block of the sample holds 1000 logs or more of one contract and topic, the
      -- whitelist finds each of its addresses, all these logs have a time and are routed without an
      -- exception, and no key occurs twice among the events they route to: the tool ends without
      -- an exception, and exits with 0 exactly if the buffer has events in the sampled blocks and
      -- the gate, which is above zero, is reached by the share of them that have a twin among the
      -- chain's, with the same transaction and log index and the same six fields up to case.
      pub main-verdict :
          (pick : List ℕ → ℕ → List ℕ) (env_file : Option (List Text)) (environ : Environ)
          (api_key : Text) (events : List TickDataEvent) (samples : ℕ) (all : List TickDataEvent)
          → get_api_key env_file environ ≡ some api_key
          → AreOfBlocks (sample_blocks pick events samples) all
          → IsUnique (keys_of all)
          → f.le gate (f.of_ℕ 0) ≡ false
          → main abi ts_to_iso valid w respond gate pick env_file environ events samples
            ≡ ok (expected_status all (sampled (sample_blocks pick events samples) events))
      unfolding main
      main-verdict pick env_file environ api_key events samples all has_key blocks unique zero =
          rw has_key (
            unless_no_sample-verdict events (sample_blocks pick events samples) all api_key blocks
              unique zero)
