-- ===== src/Engine/Graph/Tests.antt =====
-- Two pools that share a token.
use ai_quantum.Common.{
  ℕ, ◌≡◌, refl, Bool, true, false, List, [], ◌∷◌, length, Option, none, some, Outcome, ok, err,
}
use ai_quantum.Common.Int.{ℤ, pos}
use ai_quantum.Common.Text.{Text, codes, text_eq}
use ai_quantum.Common.Set.{contains, add, sorted, of_list}
use ai_quantum.Common.Dict.{get, put, keys}
use ai_quantum.Common.Float.Exact.{sixteenths}
use ai_quantum.Core.Snapshot.{GraphSnapshot, validate_graph_snapshot}
use ai_quantum.Ingestion.Event.{TickDataEvent}
use ai_quantum.Engine.Graph.{Env, pair_eq, zero_address, timed}
use ai_quantum.Engine.Graph.Consistent.{HasNoColon}
use ai_quantum.Engine.Graph.Edges.{protocol_id, pool_id, token_id, text_leb, pool_volume}
use ai_quantum.Engine.Graph.Builder.{BuildError, no_events, build_graph, node_fits, edge_fits}
use ai_quantum.Engine.Graph.Builder.Sound.{IsRight, build_graph-IsRight}

abbrev env : Env ℤ ℕ
env = record {
  parse_ts = λ t. some 0;
  abs_amount = λ a. some (pos 16);
  is_before = λ a b. false;
  total_seconds = λ a b. pos 0;
  exp = λ x. pos 16;
  minus_lambda = pos 0;
  corr_liquidity_flow = pos 16;
  corr_borrow_position = pos 12;
  corr_shared_collateral = pos 8;
  is_finite = λ x. true;
  degree = λ ids es id. 1;
  number_of_nodes = λ ids es. length ids;
}

abbrev event : Text → TickDataEvent
event pool = record {
  block_number = 17;
  block_timestamp = codes "2023-03-11T00:00:00Z";
  protocol = codes "uniswap_v3";
  event_type = codes "swap";
  pool_address = pool;
  token0 = codes "0xc0";
  token1 = codes "0xc1";
  amount0 = codes "5";
  amount1 = codes "7";
  tx_hash = codes "0xdd";
  log_index = 3;
}

abbrev events : List TickDataEvent
events = event (codes "0xa") ∷ event (codes "0xb") ∷ []

abbrev accepts : GraphSnapshot ℤ → Bool
accepts s = true

-- How many nodes and edges there are.
abbrev sizes : Outcome BuildError (GraphSnapshot ℤ) → Option (ℕ × ℕ)
sizes (err e) = none
sizes (ok s) = some (length s.nodes, length s.edges)

builds : sizes (build_graph env accepts (codes "s") (codes "now") events) ≡ some (5, 8)
unfolding build_graph timed validate_graph_snapshot get put keys contains add sorted text_eq pair_eq
    zero_address protocol_id pool_id token_id text_leb pool_volume node_fits edge_fits of_list
builds = refl

refuses_nothing : build_graph env accepts (codes "s") (codes "now") [] ≡ err no_events
unfolding build_graph
refuses_nothing = refl

no_colon : HasNoColon (codes "uniswap_v3")
no_colon = (refl, (refl, (refl, (refl, (refl, (refl, (refl, (refl, (refl, (refl, tt))))))))))

build_graph-IsRight_example :
    IsRight accepts (build_graph env accepts (codes "s") (codes "now") events)
build_graph-IsRight_example =
    build_graph-IsRight env accepts (codes "s") (codes "now") events (no_colon, (no_colon, tt))
