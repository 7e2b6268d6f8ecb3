-- ===== src/Tools/MockWss/Replay/Tests.antt =====
-- Two blocks of rows that cannot be rendered, replayed to one client.
use ai_quantum.Common.{
  ℕ, ◌+◌, ◌≡◌, refl, true, false, List, [], ◌∷◌, Option, none, some, map, length, arith,
}
use ai_quantum.Common.Int.{ℤ, pos}
use ai_quantum.Common.Text.{Text, codes}
use ai_quantum.Common.Float.Exact.{sixteenths}
use ai_quantum.Ingestion.Event.{TickDataEvent}
use ai_quantum.Ingestion.Decoders.{Abi}
use ai_quantum.Tools.MockWss.Blocks.{iter_block_groups}
use ai_quantum.Tools.MockWss.Server.{Client, Server}
use ai_quantum.Tools.MockWss.Server.Invariant.{takes}
use ai_quantum.Tools.MockWss.Replay.{Pause, ran_out, cancelled, replay_loop}
use ai_quantum.Tools.MockWss.Replay.Served.{served}
use ai_quantum.Tools.MockWss.Replay.Unpaced.{contents_of_all, replay_loop-asap}

abbrev no_abi : Abi
no_abi = record { encode = λ ts vs. none; decode = λ ts bs. none }

-- A text's time is its length.
abbrev epoch : Text → Option ℤ
epoch ts = some (pos (length ts))

abbrev block_hash : ℤ → Text
block_hash n = codes "0x00"

abbrev listener : Client
listener = record {
  queue = [];
  subs = (codes "s1", record { kind = codes "newHeads"; addresses = none }) ∷ [];
  dropped = 0;
}

abbrev server : Server
server = record { clients = listener ∷ []; current_block = 0; events_sent = 0; dropped_total = 0 }

abbrev event_at : ℕ → Text → TickDataEvent
event_at block time = record {
  block_number = block;
  block_timestamp = time;
  protocol = codes "unknown";
  event_type = codes "swap";
  pool_address = codes "0xab";
  token0 = codes "0xc0";
  token1 = codes "0x00";
  amount0 = codes "1";
  amount1 = codes "2";
  tx_hash = codes "0xdd";
  log_index = 0;
}

abbrev fixture : List TickDataEvent
fixture = event_at 1 (codes "a") ∷ event_at 2 (codes "abc") ∷ []

-- The second turn's pause is the first.
abbrev client_reads : ℕ → Pause
client_reads i = record { happenings = takes 0 ∷ []; ending = ran_out false }

abbrev task_ends : ℕ → Pause
task_ends i = record { happenings = []; ending = cancelled }

one_pause :
    (replay_loop no_abi epoch block_hash
      (λ z. z)
      (some (pos 16))
      task_ends
      true
      false
      fixture
      server).0
    ≡ pos 2 ∷ []
unfolding replay_loop
one_pause = refl

no_subscriber :
    replay_loop no_abi epoch block_hash
      (λ z. z)
      (some (pos 16))
      client_reads
      false
      false
      fixture
      server
    ≡ ([], server)
unfolding replay_loop
no_subscriber = refl

replay_loop-asap_example :
    let result =
      replay_loop no_abi epoch block_hash
        (λ (z : ℤ). z)
        none
        client_reads
        true
        false
        fixture
        server in
    let contents = contents_of_all no_abi epoch block_hash (iter_block_groups fixture) in
    (result.0 ≡ [])
    × (result.1.clients ≡ map (served contents) (listener ∷ []))
    × (result.1.events_sent ≡ 0 + length contents)
    × (replay_loop no_abi epoch block_hash (λ (z : ℤ). z) none client_reads true true fixture server
        ≡ ([], server))
replay_loop-asap_example =
    replay_loop-asap no_abi epoch block_hash (λ z. z) client_reads refl fixture server
      (omega arith, tt)
