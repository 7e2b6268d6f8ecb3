-- ===== src/Engine/Graph/Edges.antt =====
-- The raw edges of engine/graph/builder.py, and their scores.
use ai_quantum.Common.{
  ltb, ◌==◌, Bool, true, false, ◌&&◌, ◌||◌, if◌then◌else◌, List, [], ◌∷◌, ◌++◌, map, length,
}
use ai_quantum.Common.Text.{Text, codes, text_eq}
use ai_quantum.Common.Eq.{text_eq_instance}
use ai_quantum.Common.Set.{sorted}
use ai_quantum.Common.Float.{Float, py_min, py_max}
use ai_quantum.Engine.Graph.{Env, Gathered, Pair, pair_instance, get_default, later, protocol_of}

-- `_protocol_id`, `_pool_id` and `_token_id`.
unfoldable pub protocol_id : Text → Text
protocol_id protocol = codes "protocol:" ++ protocol

unfoldable pub pool_id : Text → Text → Text
pool_id protocol address = codes "pool:" ++ (protocol ++ codes ":" ++ address)

unfoldable pub token_id : Text → Text
token_id address = codes "token:" ++ address

pub data EdgeType : Type 0 where
  liquidity_flow borrow_position shared_collateral : EdgeType

pub record RawEdge (F Time : Type 0) : Type 0 where
  pub src : Text
  pub dst : Text
  pub edge_type : EdgeType
  pub volume : F
  pub latest_ts : Time

-- The order of `str`.
unfoldable pub text_leb : Text → Text → Bool
text_leb [] t = true
text_leb (a ∷ s) [] = false
text_leb (a ∷ s) (b ∷ t) = ltb a b || (a == b && text_leb s t)

-- `(ordered[i], ordered[j])` for `i < j`.
unfoldable pub pairs : List Text → List (Text × Text)
pairs [] = []
pairs (x ∷ xs) = map (λ (y : Text). (x, y)) xs ++ pairs xs

module _ {F Time : Type 0} ⦃f : Float F⦄ (env : Env F Time) (g : Gathered env)
    (t_latest : Time) where
  -- Every pair of the volumes has its time.
  abbrev pub time_of : Pair → Time
  time_of key = get_default key t_latest g.pool_token_ts

  abbrev pub volume_of : Pair → F
  volume_of key = get_default key (f.of_ℕ 0) g.pool_token_vol

  unfoldable pub token_edge : Pair × F → RawEdge F Time
  token_edge ((pool, token), vol) = record {
    src = pool_id (protocol_of g.pool_protocol pool) pool;
    dst = token_id token;
    edge_type =
        if text_eq (protocol_of g.pool_protocol pool) (codes "uniswap_v3")
        then liquidity_flow
        else borrow_position;
    volume = vol;
    latest_ts = time_of (pool, token);
  }

  -- `sum(v for (p, _), v in pool_token_vol.items() if p == pool)`.
  unfoldable pub pool_volume : Text → F → List (Pair × F) → F
  pool_volume pool total [] = total
  pool_volume pool total (((p, t), v) ∷ d) =
      if text_eq p pool then pool_volume pool (f.add total v) d else pool_volume pool total d

  -- `max(... if p == pool, default=t_latest)`, once a first time is found.
  unfoldable pub later_time : Text → Time → List (Pair × Time) → Time
  later_time pool best [] = best
  later_time pool best (((p, t), ts) ∷ d) =
      if text_eq p pool then later_time pool (later env best ts) d else later_time pool best d

  unfoldable pub pool_time : Text → List (Pair × Time) → Time
  unfolding later_time
  pool_time pool [] = t_latest
  pool_time pool (((p, t), ts) ∷ d) =
      if text_eq p pool then later_time pool ts d else pool_time pool d

  unfoldable pub protocol_edge : Text × Text → RawEdge F Time
  protocol_edge (pool, protocol) = record {
    src = protocol_id protocol;
    dst = pool_id protocol pool;
    edge_type = liquidity_flow;
    volume = pool_volume pool (f.of_ℕ 0) g.pool_token_vol;
    latest_ts = pool_time pool g.pool_token_ts;
  }

  unfoldable pub shared_edge : Text → Text × Text → RawEdge F Time
  shared_edge token (pa, pb) = record {
    src = pool_id (protocol_of g.pool_protocol pa) pa;
    dst = pool_id (protocol_of g.pool_protocol pb) pb;
    edge_type = shared_collateral;
    volume = py_min (volume_of (pa, token)) (volume_of (pb, token));
    latest_ts = later env (time_of (pa, token)) (time_of (pb, token));
  }

  -- One turn of the loop over `token_pools`.
  unfoldable pub token_shared : Text × List Text → List (RawEdge F Time)
  unfolding shared_edge pairs
  token_shared (token, pools) =
      if ltb (length pools) 2 then [] else map (shared_edge token) (pairs (sorted text_leb pools))

  unfoldable pub shared_edges : List (Text × List Text) → List (RawEdge F Time)
  unfolding token_shared
  shared_edges [] = []
  shared_edges (item ∷ d) = token_shared item ++ shared_edges d

  unfoldable pub raw_edges : List (RawEdge F Time)
  unfolding token_edge protocol_edge shared_edges
  raw_edges =
      map token_edge g.pool_token_vol
      ++ (map protocol_edge g.pool_protocol ++ shared_edges g.token_pools)

  abbrev pub corr : EdgeType → F
  corr liquidity_flow = env.corr_liquidity_flow
  corr borrow_position = env.corr_borrow_position
  corr shared_collateral = env.corr_shared_collateral

  -- `vol * math.exp(-LAMBDA * dt) * CORR[etype]`.
  unfoldable pub score : RawEdge F Time → F
  score e =
      f.mul
        (f.mul e.volume (env.exp (f.mul env.minus_lambda (env.total_seconds t_latest e.latest_ts))))
        (corr e.edge_type)

  unfoldable pub max_raw : F → List (RawEdge F Time) → F
  unfolding score
  max_raw best [] = best
  max_raw best (e ∷ es) = max_raw (py_max best (score e)) es
