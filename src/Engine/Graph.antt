-- ===== src/Engine/Graph.antt =====
-- engine/graph/builder.py: what `build_graph` gathers from the events. Floats, the calendar,
-- `math.exp` and networkx are parameters.
pub mod Edges
pub mod Consistent
pub mod Builder
pub mod Ids
mod Tests
use ai_quantum.Common.{
  ℕ, zero, suc, ltb, ◌==◌, Bool, true, false, ◌&&◌, if◌then◌else◌, List, [], ◌∷◌, ◌++◌, Option,
  none, some, ◌≡◌, ◌↔◌, refl, arith,
}
use ai_quantum.Common.Text.{Text, codes, text_eq, text_eq_iff}
use ai_quantum.Common.Eq.{Eq, text_eq_instance, eqb}
use ai_quantum.Common.Dict.{get, put}
use ai_quantum.Common.Set.{add}
use ai_quantum.Common.Float.{Float}
use ai_quantum.Ingestion.Event.{TickDataEvent}

unfoldable pub zero_address : Text
zero_address = codes "0x0000000000000000000000000000000000000000"

-- The code's calls of other libraries.
pub record Env (F Time : Type 0) : Type 0 where
  -- `_parse_ts` and `_abs_amount`, where `none` is their `ValueError`.
  pub parse_ts : Text → Option Time
  pub abs_amount : Text → Option F
  -- `a < b`, and `(a - b).total_seconds()`.
  pub is_before : Time → Time → Bool
  pub total_seconds : Time → Time → F
  pub exp : F → F
  -- `-LAMBDA` and the values of `CORR`.
  pub minus_lambda : F
  pub corr_liquidity_flow : F
  pub corr_borrow_position : F
  pub corr_shared_collateral : F
  pub is_finite : F → Bool
  -- networkx, on the nodes and the edges that were added.
  pub degree : List Text → List (Text × Text) → Text → ℕ
  pub number_of_nodes : List Text → List (Text × Text) → ℕ

-- A pool and a token.
abbrev pub Pair : Type 0
Pair = Text × Text

unfoldable pub pair_eq : Pair → Pair → Bool
pair_eq (a, b) (c, d) = text_eq a c && text_eq b d

pub pair_eq_iff : (k l : Pair) → (pair_eq k l ≡ true) ↔ (k ≡ l)
unfolding pair_eq
pair_eq_iff (a, b) (c, d) = (
  λ h. ground (arith, text_eq_iff a c, text_eq_iff b d, h),
  λ h. ground (arith, text_eq_iff a c, text_eq_iff b d, h),
)

instance abbrev pub pair_instance : Eq Pair
pair_instance = record { are_same = pair_eq; are_same_iff = pair_eq_iff }

-- `d.get(k, v)`, and `d[k]` where the key is there.
abbrev pub get_default : {V K : Type 0} ⦃e : Eq K⦄ → K → V → List (K × V) → V
get_default k v d = elim (get k d) [ none ↦ v | some w ↦ w ]

-- `pool_protocol[pool]`: every pool has its protocol.
abbrev pub protocol_of : List (Text × Text) → Text → Text
protocol_of d pool = get_default pool [] d

module _ {F Time : Type 0} ⦃f : Float F⦄ (env : Env F Time) where
  -- The four dictionaries.
  pub record Gathered : Type 0 where
    pub pool_protocol : List (Text × Text)
    pub pool_token_vol : List (Pair × F)
    pub pool_token_ts : List (Pair × Time)
    pub token_pools : List (Text × List Text)

  abbrev pub nothing : Gathered
  nothing = record { pool_protocol = []; pool_token_vol = []; pool_token_ts = []; token_pools = [] }

  -- `max(a, b)`, which is the first unless the second is after it.
  abbrev pub later : Time → Time → Time
  later a b = if env.is_before a b then b else a

  abbrev pub with_amount : Text → Text → Time → F → Gathered → Gathered
  with_amount pool token ts amount g = record g {
    pool_token_vol =
        put (pool, token) (f.add (get_default (pool, token) (f.of_ℕ 0) g.pool_token_vol) amount)
          g.pool_token_vol;
    pool_token_ts =
        put (pool, token) (later (get_default (pool, token) ts g.pool_token_ts) ts) g.pool_token_ts;
    token_pools = put token (add pool (get_default token [] g.token_pools)) g.token_pools;
  }

  -- A turn of the inner loop.
  unfoldable pub add_token : Text → Text → Text → Time → Gathered → Option Gathered
  add_token pool token amount ts g =
      if text_eq token zero_address then some g else elim (env.abs_amount amount) [
        | none ↦ none
        | some a ↦ some (with_amount pool token ts a g)
      ]

  abbrev pub with_protocol : TickDataEvent → Gathered → Gathered
  with_protocol e g = record g { pool_protocol = put e.pool_address e.protocol g.pool_protocol }

  abbrev and_then : Option Gathered → (Gathered → Option Gathered) → Option Gathered
  and_then none k = none
  and_then (some g) k = k g

  unfoldable pub add_event : TickDataEvent → Time → Gathered → Option Gathered
  unfolding add_token
  add_event e ts g =
      and_then (add_token e.pool_address e.token0 e.amount0 ts (with_protocol e g))
        (add_token e.pool_address e.token1 e.amount1 ts)

  -- The loop over the events and their times.
  unfoldable pub gather : List (TickDataEvent × Time) → Gathered → Option Gathered
  unfolding add_event
  gather [] g = some g
  gather ((e, ts) ∷ es) g = and_then (add_event e ts g) (λ g'. gather es g')

abbrev pub with_time :
    {Time : Type 0}
    → TickDataEvent
    → Option Time
    → Option (List (TickDataEvent × Time))
    → Option (List (TickDataEvent × Time))
with_time e none rest = none
with_time e (some t) none = none
with_time e (some t) (some es) = some ((e, t) ∷ es)

-- `zip(events, ts_by_event)`.
unfoldable pub timed :
    {Time : Type 0}
    → (Text → Option Time)
    → List TickDataEvent
    → Option (List (TickDataEvent × Time))
timed parse_ts [] = some []
timed parse_ts (e ∷ es) = with_time e (parse_ts e.block_timestamp) (timed parse_ts es)
