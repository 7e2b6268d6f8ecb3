-- ===== src/Tools/MockWss/Server/Tests.antt =====
-- Fan-outs and requests at small servers, and instances of the theorems.
use ai_quantum.Common.{◌+◌, ◌≡◌, refl, false, List, [], ◌∷◌, Option, none, some, map, length, arith}
use ai_quantum.Common.Int.{ℤ, pos}
use ai_quantum.Common.Text.{Text, codes, text_eq}
use ai_quantum.Ingestion.Decoders.{Abi}
use ai_quantum.Tools.MockWss.Blocks.{Group}
use ai_quantum.Tools.MockWss.Server.{
  Content, header, subscribe, unsubscribe, absent, reply, removed, Client, Server, on_message,
  is_for, fanout,
}
use ai_quantum.Tools.MockWss.Server.Fanout.{notifications, after, evictions, AreBounded, fanout_lem}
use ai_quantum.Tools.MockWss.Server.Invariant.{
  Happening, connects, disconnects, takes, asks, replays, run, run-AreBounded,
}

abbrev no_abi : Abi
no_abi = record { encode = λ ts vs. none; decode = λ ts bs. none }

-- Every timestamp but the empty one parses.
abbrev epoch : Text → Option ℤ
epoch [] = none
epoch (c ∷ s) = some (pos c)

abbrev block_hash : ℤ → Text
block_hash n = codes "0x00"

abbrev listener : Client
listener = record {
  queue = [];
  subs =
      (codes "s1", record { kind = codes "newHeads"; addresses = none })
      ∷ (codes "s2", record { kind = codes "logs"; addresses = none })
      ∷ [];
  dropped = 0;
}

abbrev server : Server
server = record { clients = listener ∷ []; current_block = 0; events_sent = 0; dropped_total = 0 }

abbrev head_1 : Content
head_1 = header (record {
  number = codes "0x1";
  hash = codes "0x00";
  parent_hash = codes "0x00";
  timestamp = codes "0x2";
})

is_idle : AreBounded (listener ∷ [])
is_idle = (omega arith, tt)

fanout_lem_example : fanout head_1 server ≡ record server {
  clients = map (after head_1) (listener ∷ []);
  dropped_total = 0 + evictions head_1 (listener ∷ []);
}
fanout_lem_example = fanout_lem head_1 server is_idle

one_notification : length (notifications head_1 listener.subs) ≡ 1
unfolding notifications is_for text_eq
one_notification = refl

unknown_id :
    (on_message [] (codes "7") (unsubscribe none) listener).queue
    ≡ reply (codes "7") (removed false) ∷ []
unfolding on_message
unknown_id = refl

abbrev block : Group
block = record { block_number = 1; block_timestamp = codes "t"; rows = [] }

abbrev happenings : List Happening
happenings =
    connects
    ∷ asks 1 (codes "s3") (codes "8") (subscribe none absent)
    ∷ replays block
    ∷ takes 0
    ∷ disconnects 1
    ∷ []

run-AreBounded_example : AreBounded (run no_abi epoch block_hash happenings server).clients
run-AreBounded_example = run-AreBounded no_abi epoch block_hash happenings server is_idle
