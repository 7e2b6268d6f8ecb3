-- ===== src/Tools/Reconcile/Fetcher/Tests.antt =====
-- A whitelist of one pool, a chain with one swap of it, and an API that drops the first call.
use ai_quantum.Tools.Reconcile.Matched.{sampled}
use ai_quantum.Tools.Dotenv.{Environ, get_api_key, load_env_file, api_key_in}
use ai_quantum.Common.{
  Option, ℕ, zero, suc, ◌+◌, ◌<◌, ◌≡◌, refl, inl, inr, ◌⊎◌, ◌==◌, ◌&&◌, Bool, true, Bool-cases,
  if◌then◌else◌, List, [], ◌∷◌, take, length, some, none, ok, err, arith,
}
use ai_quantum.Common.Int.{pos}
use ai_quantum.Common.Text.{strip, Text, codes, text_eq, starts_with, removeprefix, lower}
use ai_quantum.Common.Text.Hex.{fromhex}
use ai_quantum.Common.Text.Number.{read_from, print, str_int}
use ai_quantum.Common.Dict.{get, keys}
use ai_quantum.Common.Set.{contains, add, of_list, sorted, insert, IsUnique}
use ai_quantum.Common.Float.Exact.{sixteenths}
use ai_quantum.Ingestion.Event.{TickDataEvent, uniswap_v3, swap}
use ai_quantum.Ingestion.Whitelist.{ContractWhitelist, addresses, find}
use ai_quantum.Ingestion.Decoders.{
  Abi, number, to_int, topic_at, number_at, normalize, tx_hash_of, to_data_bytes, from_option,
}
use ai_quantum.Ingestion.Decoders.Uniswap.{swap_topic, mint_topic, burn_topic}
use ai_quantum.Tools.ExtractFixtures.{Log}
use ai_quantum.Tools.ExtractFixtures.Decoding.{int_16}
use ai_quantum.Tools.ExtractFixtures.Etherscan.{Params, Reply, failed, accept}
use ai_quantum.Tools.ExtractFixtures.Etherscan.Spans.{History}
use ai_quantum.Tools.ExtractFixtures.Etherscan.Complete.{Serves, answer}
use ai_quantum.Tools.ExtractFixtures.Fetch.Sorted.{CanFetch}
use ai_quantum.Ingestion.Router.{log_address}
use ai_quantum.Ingestion.Decoders.Uniswap
use ai_quantum.Tools.VerifyFixtures.{key_instance}
use ai_quantum.Tools.Reconcile.{sample_blocks, event_key}
use ai_quantum.Tools.Reconcile.Fetcher.{params_at, topics_of, route_all, main}
use ai_quantum.Tools.Reconcile.Fetcher.Complete.{
  AreOfTopics, AreOfBlocks, no_topic, then_topic, no_address, then_address, no_block, then_block,
  expected_status, main-verdict,
}

abbrev pool : ContractWhitelist
pool =
    (
      codes "0xab",
      record {
        protocol = uniswap_v3;
        pool_meta = record { token0 = codes "0xc0"; token1 = codes "0xc1" };
      },
    )
    ∷ []

abbrev two_numbers : Abi
two_numbers = record {
  encode = λ types values. none;
  decode = λ types data'. some (number (pos 5) ∷ number (pos 7) ∷ []);
}

abbrev iso : ℕ → Option Text
iso seconds = some (codes "2023-03-11T00:00:00Z")

abbrev any : TickDataEvent → Bool
any e = true

abbrev swap_log : Log
swap_log = record {
  address = codes "0xab";
  topics = swap_topic ∷ [];
  payload = codes "0x";
  block_number = codes "0x11";
  time_stamp = codes "0x10";
  transaction_hash = codes "0xdd";
  log_index = codes "0x3";
}

abbrev event : Text → TickDataEvent
event amount = record {
  block_number = 17;
  block_timestamp = codes "2023-03-11T00:00:00Z";
  protocol = uniswap_v3;
  event_type = swap;
  pool_address = codes "0xab";
  token0 = codes "0xc0";
  token1 = codes "0xc1";
  amount0 = amount;
  amount1 = codes "7";
  tx_hash = codes "0xdd";
  log_index = 3;
}

unfoldable chain : History
chain address topic n = if text_eq topic swap_topic && n == 17 then swap_log ∷ [] else []

length-chain : (address topic : Text) (n : ℕ) → length (chain address topic n) < 1000
unfolding chain
length-chain address topic n = elim (Bool-cases (text_eq topic swap_topic && n == 17)) [
  | inl here ↦ rw here (omega arith)
  | inr elsewhere ↦ rw elsewhere (omega arith)
]

can_fetch : (block : ℕ) (address topic : Text) → CanFetch chain (params_at block address topic)
can_fetch block address topic = record {
  some_block = omega arith;
  fits = λ n i j. length-chain address topic n;
}

abbrev answers : ℕ → Params → Reply
answers zero p = failed (codes "ConnectionError")
answers (suc n) p = answer chain p

is_faithful_at :
    (n : ℕ) (p : Params)
    → ((e : Text) × (accept (answers n p) ≡ err e)) ⊎ (answers n p ≡ answer chain p)
unfolding accept
is_faithful_at zero p = inl (codes "ConnectionError", refl)
is_faithful_at (suc n) p = inr refl

serves : Serves chain answers
serves = record {
  is_faithful = is_faithful_at;
  recovers = λ n p. (1, omega arith, rw (let e : n + 1 ≡ suc n = omega arith in e) refl);
}

routes : route_all two_numbers iso any pool (swap_log ∷ []) ≡ ok (event (codes "5") ∷ [])
unfolding route_all int_16 read_from text_eq lower get normalize tx_hash_of to_data_bytes to_int
    topic_at number_at from_option fromhex removeprefix starts_with str_int print uniswap_v3
    swap_topic swap find log_address Uniswap.decode
routes = refl

of_pool :
    AreOfTopics two_numbers iso any pool chain 17
      (codes "0xab")
      (topics_of uniswap_v3)
      (event (codes "5") ∷ [])
unfolding topics_of text_eq chain swap_topic mint_topic burn_topic route_all uniswap_v3
of_pool = then_topic _ _ (event (codes "5") ∷ []) [] (can_fetch 17 _ _) routes (
    then_topic _ _ [] [] (can_fetch 17 _ _) refl
      (then_topic _ _ [] [] (can_fetch 17 _ _) refl no_topic))

abbrev buffer : List TickDataEvent
buffer = event (codes "5") ∷ []

abbrev first_blocks : List ℕ → ℕ → List ℕ
first_blocks blocks n = take n blocks

of_sample :
    AreOfBlocks two_numbers iso any pool chain
      (sample_blocks first_blocks buffer 1)
      (event (codes "5") ∷ [])
unfolding sample_blocks of_list sorted add contains keys insert find get text_eq lower addresses
of_sample =
    then_block 17 [] (event (codes "5") ∷ []) []
      (then_address (codes "0xab") [] _ (event (codes "5") ∷ []) [] refl of_pool no_address)
      no_block

one_event : IsUnique (event_key (event (codes "5")) ∷ [])
unfolding contains
one_event = (refl, tt)

abbrev environ : Environ
environ = (codes "ETHERSCAN_API_KEY", codes " k ") ∷ []

has_key : get_api_key none environ ≡ some (codes "k")
unfolding get_api_key load_env_file api_key_in strip get text_eq
has_key = refl

main-verdict_example :
    main two_numbers iso any pool answers (pos 15) first_blocks none environ buffer 1
    ≡ ok (
        expected_status two_numbers iso any pool chain answers serves
          (pos 15)
          (event (codes "5") ∷ [])
          (sampled (sample_blocks first_blocks buffer 1) buffer))
main-verdict_example =
    main-verdict two_numbers iso any pool chain answers serves (pos 15) first_blocks none environ
      (codes "k") buffer 1 (event (codes "5") ∷ []) has_key of_sample one_event refl
