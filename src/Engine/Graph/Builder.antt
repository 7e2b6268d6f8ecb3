-- ===== src/Engine/Graph/Builder.antt =====
-- The nodes and edges of engine/graph/builder.py, and `build_graph`.
pub mod Nodes
pub mod Invariants
pub mod Sound
use ai_quantum.Common.{
  ℕ, ◌+◌, ◌-◌, min, max, ltb, leb, Bool, true, false, ◌&&◌, not, if◌then◌else◌, List, [], ◌∷◌, ◌++◌,
  map, length, Option, none, some, Outcome, ok, err, ◌>>=◌,
}
use ai_quantum.Common.Text.{Text, codes}
use ai_quantum.Common.Eq.{text_eq_instance}
use ai_quantum.Common.Dict.{put, keys}
use ai_quantum.Common.Float.{Float}
use ai_quantum.Core.Snapshot.{
  NodeFeatures, Node, Edge, GraphSnapshot, Violation, validate_graph_snapshot,
}
use ai_quantum.Ingestion.Event.{TickDataEvent}
use ai_quantum.Engine.Graph.{
  Env, Gathered, nothing, Pair, pair_instance, get_default, later, protocol_of, gather, timed,
}
use ai_quantum.Engine.Graph.Edges.{
  EdgeType, liquidity_flow, borrow_position, shared_collateral, RawEdge, protocol_id, pool_id,
  token_id, raw_edges, score, max_raw,
}

pub data BuildError : Type 0 where
  -- `ValueError` on the list, on a timestamp or on an amount.
  no_events bad_timestamp bad_amount : BuildError
  -- A `ValidationError` of the node and edge models.
  model_violation : BuildError
  -- What the validation of the snapshot raises.
  refused : Violation → BuildError

abbrev pub type_name : EdgeType → Text
type_name liquidity_flow = codes "liquidity_flow"
type_name borrow_position = codes "borrow_position"
type_name shared_collateral = codes "shared_collateral"

-- The nodes of a pool and of its protocol.
abbrev pub put_pool : Text → Text → List (Text × Text) → List (Text × Text)
put_pool pool protocol d =
    put (pool_id protocol pool) (codes "pool") (put (protocol_id protocol) (codes "protocol") d)

unfoldable pub pool_types : List (Text × Text) → List (Text × Text) → List (Text × Text)
pool_types d [] = d
pool_types d ((pool, protocol) ∷ items) = pool_types (put_pool pool protocol d) items

unfoldable pub token_types : List (Text × Text) → List Text → List (Text × Text)
token_types d [] = d
token_types d (token ∷ tokens) = token_types (put (token_id token) (codes "token") d) tokens

abbrev pub all_fit : {A : Type 0} → (A → Bool) → List A → Bool
all_fit p [] = true
all_fit p (x ∷ xs) = p x && all_fit p xs

-- `min(blocks)` and `max(blocks)`, once a first block is found.
abbrev pub min_block : ℕ → List TickDataEvent → ℕ
min_block n [] = n
min_block n (e ∷ es) = min_block (min n e.block_number) es

abbrev pub max_block : ℕ → List TickDataEvent → ℕ
max_block n [] = n
max_block n (e ∷ es) = max_block (max n e.block_number) es

module _ {F Time : Type 0} ⦃f : Float F⦄ (env : Env F Time) where
  unfoldable pub node_types : Gathered env → List (Text × Text)
  unfolding pool_types token_types
  node_types g = token_types (pool_types [] g.pool_protocol) (keys g.token_pools)

  -- `node_volume[k] += vol`.
  abbrev pub add_volume : Text → F → List (Text × F) → List (Text × F)
  add_volume id vol d = put id (f.add (get_default id (f.of_ℕ 0) d) vol) d

  unfoldable pub node_volume : Gathered env → List (Pair × F) → List (Text × F) → List (Text × F)
  node_volume g [] d = d
  node_volume g (((pool, token), vol) ∷ items) d =
      let protocol = protocol_of g.pool_protocol pool in
      node_volume g items (
        add_volume (protocol_id protocol) vol
          (add_volume (pool_id protocol pool) vol (add_volume (token_id token) vol d)))

  -- `_clamp01`.
  abbrev pub clamp01 : F → F
  clamp01 x = if f.lt x (f.of_ℕ 0) then f.of_ℕ 0 else if f.lt (f.of_ℕ 1) x then f.of_ℕ 1 else x

  -- The endpoints of the edges, which are added to the graph.
  abbrev pub endpoints : List (RawEdge F Time) → List (Text × Text)
  endpoints = map (λ (e : RawEdge F Time). (e.src, e.dst))

  abbrev pub denom : ℕ → ℕ
  denom n = if ltb 1 n then n - 1 else 1

  unfoldable pub node_of : Gathered env → List (RawEdge F Time) → Text × Text → Node F
  unfolding node_volume
  node_of g raw (node_id, node_type) =
      let ids = keys (node_types g) in
      record {
        id = node_id;
        node_type = node_type;
        features = record {
          tvl_usd = f.of_ℕ 0;
          volume_24h_usd = get_default node_id (f.of_ℕ 0) (node_volume g g.pool_token_vol []);
          price_usd = f.of_ℕ 0;
          volatility = f.of_ℕ 0;
          connectivity = clamp01 (
              f.div (f.of_ℕ (env.degree ids (endpoints raw) node_id))
                (f.of_ℕ (denom (env.number_of_nodes ids (endpoints raw)))));
        };
      }

  unfoldable pub edge_of : Gathered env → Time → F → RawEdge F Time → Edge F
  edge_of g t_latest top e = record {
    src = e.src;
    dst = e.dst;
    weight = if f.lt (f.of_ℕ 0) top then f.div (score env g t_latest e) top else f.of_ℕ 0;
    edge_type = type_name e.edge_type;
  }

  -- The bounds of the models `NodeFeatures`, `Node` and `Edge`.
  abbrev is_feature : F → Bool
  is_feature x = env.is_finite x && f.le (f.of_ℕ 0) x

  abbrev is_id : Text → Bool
  is_id s = leb 1 (length s) && leb (length s) 128

  unfoldable pub node_fits : Node F → Bool
  node_fits n =
      is_id n.id
      && is_feature n.features.tvl_usd
      && is_feature n.features.volume_24h_usd
      && is_feature n.features.price_usd
      && is_feature n.features.volatility
      && is_feature n.features.connectivity
      && f.le n.features.connectivity (f.of_ℕ 1)

  unfoldable pub edge_fits : Edge F → Bool
  edge_fits e = is_id e.src && is_id e.dst && f.le (f.of_ℕ 0) e.weight && f.le e.weight (f.of_ℕ 1)

  abbrev pub max_time : Time → List (TickDataEvent × Time) → Time
  max_time t [] = t
  max_time t ((e, ts) ∷ es) = max_time (later env t ts) es

  module _ (valid : GraphSnapshot F → Bool) (snapshot_id created_at : Text) where
    unfoldable pub snapshot :
        TickDataEvent → List TickDataEvent → Time → Gathered env → GraphSnapshot F
    unfolding raw_edges max_raw edge_of node_of node_types
    snapshot e es t_latest g =
        let raw = raw_edges env g t_latest in
        let top = max_raw env g t_latest (f.of_ℕ 0) raw in
        record {
          snapshot_id = snapshot_id;
          start = min_block e.block_number es;
          end = max_block e.block_number es;
          created_at = created_at;
          nodes = map (node_of g raw) (node_types g);
          edges = map (edge_of g t_latest top) raw;
        }

    abbrev pub checked : GraphSnapshot F → Outcome BuildError (GraphSnapshot F)
    checked snap =
        if all_fit node_fits snap.nodes && all_fit edge_fits snap.edges
        then elim (validate_graph_snapshot valid snap) [ none ↦ ok snap | some v ↦ err (refused v) ]
        else err model_violation

    abbrev pub gathered :
        TickDataEvent
        → List TickDataEvent
        → Time
        → Option (Gathered env)
        → Outcome BuildError (GraphSnapshot F)
    gathered e es t_latest none = err bad_amount
    gathered e es t_latest (some g) = checked (snapshot e es t_latest g)

    abbrev pub at_times :
        TickDataEvent
        → List TickDataEvent
        → Option (List (TickDataEvent × Time))
        → Outcome BuildError (GraphSnapshot F)
    at_times e es none = err bad_timestamp
    at_times e es (some []) = err no_events
    at_times e es (some ((e', t) ∷ rest)) =
        gathered e es (max_time t rest) (gather env ((e', t) ∷ rest) (nothing env))

    unfoldable pub build_graph : List TickDataEvent → Outcome BuildError (GraphSnapshot F)
    unfolding gather snapshot
    build_graph [] = err no_events
    build_graph (e ∷ es) = at_times e es (timed env.parse_ts (e ∷ es))
