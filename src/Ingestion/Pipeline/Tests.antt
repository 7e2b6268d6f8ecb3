-- ===== src/Ingestion/Pipeline/Tests.antt =====
-- A run of the realtime loop on a few messages, and instances of its theorems.
use ai_quantum.Common.{Option, ℕ, ◌≡◌, refl, true, List, [], ◌∷◌, none, some, length, last}
use ai_quantum.Common.Int.{pos}
use ai_quantum.Common.Text.{Text, codes, text_eq, lower, starts_with}
use ai_quantum.Common.Dict.{get}
use ai_quantum.Core.RingBuffer.{deque_protocol}
use ai_quantum.Ingestion.Event.{TickDataEvent, uniswap_v3}
use ai_quantum.Ingestion.Whitelist.{ContractWhitelist, find}
use ai_quantum.Ingestion.Decoders.{
  bytes, str, int, Log, Abi, number, to_int, topic_at, to_data_bytes, normalize, number_at,
  from_option,
}
use ai_quantum.Ingestion.Decoders.Uniswap
use ai_quantum.Ingestion.Router.{route_validated, log_address}
use ai_quantum.Ingestion.Decoders.Uniswap.{swap_topic}
use ai_quantum.Ingestion.Pipeline.{
  head, log, other, Poll, message, idle, ended, start, run_realtime,
}
use ai_quantum.Ingestion.Pipeline.Delivered.{delivered, heads, run_realtime-deque}
use ai_quantum.Ingestion.Pipeline.Stamped.{AreStamped, run_realtime-AreStamped}

-- A codec that decodes everything to the amounts 5 and 7.
abbrev fixed_abi : Abi
fixed_abi = record {
  encode = λ ts vs. none;
  decode = λ ts bs. some (number (pos 5) ∷ number (pos 7) ∷ []);
}

abbrev clock : ℕ → Option Text
clock ts = some (ts ∷ [])

abbrev listed : ContractWhitelist
listed =
    (
      codes "0xab",
      record {
        protocol = codes "uniswap_v3";
        pool_meta = record { token0 = codes "0xc0"; token1 = codes "0xc1" };
      },
    )
    ∷ []

abbrev swap_log : Log
swap_log = record {
  address = str (codes "0xAB");
  topics = str swap_topic ∷ [];
  payload = bytes [];
  block_number = int 17;
  transaction_hash = str (codes "0xdd");
  log_index = int 3;
}

abbrev bad_log : Log
bad_log = record swap_log { topics = [] }

-- The first log comes before a header, the third is malformed.
abbrev polls : List Poll
polls =
    message (log swap_log)
    ∷ idle
    ∷ message (head (int 100))
    ∷ message (log swap_log)
    ∷ message (log bad_log)
    ∷ message other
    ∷ message (head (int 200))
    ∷ message (log swap_log)
    ∷ ended
    ∷ message (log swap_log)
    ∷ []

run_realtime-deque_example :
    let s =
      (run_realtime
        (deque_protocol TickDataEvent)
        fixed_abi
        clock
        (λ e. true)
        listed
        polls
        (start (deque_protocol TickDataEvent) (record { maxlen = 1; buf = [] }))).0 in
    (s.buffer.buf ≡ last 1 (delivered fixed_abi clock (λ e. true) listed 0 polls))
    × (s.ingested ≡ length (delivered fixed_abi clock (λ e. true) listed 0 polls))
    × (s.blocks ≡ heads fixed_abi clock (λ e. true) listed polls)
run_realtime-deque_example = run_realtime-deque fixed_abi clock (λ e. true) listed 0 polls

run_realtime-AreStamped_example :
    AreStamped fixed_abi clock
      (λ e. true)
      listed
      (run_realtime
        (deque_protocol TickDataEvent)
        fixed_abi
        clock
        (λ e. true)
        listed
        polls
        (start (deque_protocol TickDataEvent) (record { maxlen = 1; buf = [] }))).0.buffer.buf
run_realtime-AreStamped_example = run_realtime-AreStamped fixed_abi clock (λ e. true) listed 0 polls

two_come_in : length (delivered fixed_abi clock (λ e. true) listed 0 polls) ≡ 2
unfolding delivered to_int route_validated find get text_eq lower log_address uniswap_v3
    Uniswap.decode topic_at to_data_bytes normalize starts_with swap_topic number_at from_option
two_come_in = refl
