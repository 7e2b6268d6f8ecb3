-- ===== src/Ingestion/Pipeline.antt =====
-- `run_realtime` of ingestion/pipeline.py, between its subscriptions and its teardown: the loop over
-- the socket's messages. A turn of the loop is one `Poll`; the list of them ends where the stop
-- event is set. The router's parameters are those of Ingestion/Router.
pub mod Delivered
pub mod Stamped
mod Tests
use ai_quantum.Common.{
  ℕ, ◌+◌, ◌==◌, Bool, List, [], ◌∷◌, Option, none, some, if◌then◌else◌, Outcome, ok, err,
}
use ai_quantum.Common.Text.{Text}
use ai_quantum.Core.RingBuffer.{RingBufferProtocol}
use ai_quantum.Ingestion.Event.{TickDataEvent}
use ai_quantum.Ingestion.Whitelist.{ContractWhitelist}
use ai_quantum.Ingestion.Decoders.{RawInt, Log, DecodeError, Abi, to_int}
use ai_quantum.Ingestion.Router.{RouteError, route_validated}

-- A message, by its subscription; a header is its timestamp.
pub data Message : Type 0 where
  head : RawInt → Message
  log : Log → Message
  other : Message

-- What `__anext__` gives within the half second: a message, `TimeoutError`, `StopAsyncIteration`.
pub data Poll : Type 0 where
  message : Message → Poll
  idle : Poll
  ended : Poll

-- How the loop is left. A timestamp that is not a number raises out of it.
pub data Exit : Type 0 where
  stopped : Exit
  exhausted : Exit
  bad_timestamp : DecodeError → Exit

module _ (p : RingBufferProtocol TickDataEvent) where
  -- `messages`, `blocks` and `ingested` are the three metrics.
  pub record State : Type 0 where
    pub buffer : p.Buffer
    pub current_ts : ℕ
    pub messages : ℕ
    pub blocks : ℕ
    pub ingested : ℕ

  abbrev pub start : p.Buffer → State
  start b = record { buffer = b; current_ts = 0; messages = 0; blocks = 0; ingested = 0 }

  -- What is done with the router's answer; an exception is logged and passed over.
  abbrev pub ingest : Outcome RouteError (Option TickDataEvent) → State → State
  ingest (err e) s = s
  ingest (ok none) s = s
  ingest (ok (some event)) s = record s {
    buffer = p.write event s.buffer;
    ingested = s.ingested + 1;
  }

  abbrev pub on_head : Outcome DecodeError ℕ → State → State × Option DecodeError
  on_head (err e) s = (s, some e)
  on_head (ok ts) s = (record s { current_ts = ts; blocks = s.blocks + 1 }, none)

  module _ (abi : Abi) (ts_to_iso : ℕ → Option Text) (valid : TickDataEvent → Bool)
      (w : ContractWhitelist) where
    abbrev pub on_log : Log → State → State
    on_log l s =
        if s.current_ts == 0
        then s
        else ingest (route_validated abi ts_to_iso valid w l s.current_ts) s

    -- One message, after `record_message`.
    unfoldable pub receive : Message → State → State × Option DecodeError
    receive (head t) s = on_head (to_int t) s
    receive (log l) s = (on_log l s, none)
    receive other s = (s, none)

    abbrev pub counted : State → State
    counted s = record s { messages = s.messages + 1 }

    unfoldable pub run_realtime : List Poll → State → State × Exit
    unfolding receive
    run_realtime [] s = (s, stopped)
    run_realtime (idle ∷ ps) s = run_realtime ps s
    run_realtime (ended ∷ ps) s = (s, exhausted)
    run_realtime (message m ∷ ps) s =
        let (s', raised) = receive m (counted s) in
        elim raised [ none ↦ run_realtime ps s' | some e ↦ (s', bad_timestamp e) ]
