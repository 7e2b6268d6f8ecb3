-- ===== src/Core/Snapshot.antt =====
-- The graph snapshot of engine/graph/node_types.py and edge_types.py, and `validate_graph_snapshot`
-- of core/schemas/__init__.py. The JSON Schema validator is a parameter, `valid`.
pub mod Invariants
mod Tests
use ai_quantum.Common.{
  ℕ, ◌+◌, Bool, true, false, ◌||◌, List, [], ◌∷◌, Option, none, some, if◌then◌else◌, ltb, map,
}
use ai_quantum.Common.Text.{Text}
use ai_quantum.Common.Eq.{eqb, text_eq_instance}
use ai_quantum.Common.Set.{contains, of_list}

pub record NodeFeatures (F : Type 0) : Type 0 where
  pub tvl_usd : F
  pub volume_24h_usd : F
  pub price_usd : F
  pub volatility : F
  pub connectivity : F

pub record Node (F : Type 0) : Type 0 where
  pub id : Text
  pub node_type : Text
  pub features : NodeFeatures F

pub record Edge (F : Type 0) : Type 0 where
  pub src : Text
  pub dst : Text
  pub weight : F
  pub edge_type : Text

pub record GraphSnapshot (F : Type 0) : Type 0 where
  pub snapshot_id : Text
  -- `block_range`.
  pub start : ℕ
  pub end : ℕ
  pub created_at : Text
  pub nodes : List (Node F)
  pub edges : List (Edge F)

-- What the validation raises; an edge is named by its number.
pub data Violation : Type 0 where
  schema_violation end_before_start duplicate_ids : Violation
  unknown_src unknown_dst self_loop : ℕ → Violation

-- `node_ids.count(nid)`.
unfoldable pub count : Text → List Text → ℕ
count x [] = 0
count x (y ∷ s) = (if eqb y x then 1 else 0) + count x s

-- Whether `{nid for nid in nids if node_ids.count(nid) > 1}` has an element.
unfoldable pub any_repeated : List Text → List Text → Bool
unfolding count
any_repeated [] node_ids = false
any_repeated (nid ∷ nids) node_ids = ltb 1 (count nid node_ids) || any_repeated nids node_ids

module _ {F : Type 0} where
  -- The loop over the edges, from number `idx` on.
  unfoldable pub check_edges : List Text → ℕ → List (Edge F) → Option Violation
  check_edges node_id_set idx [] = none
  check_edges node_id_set idx (e ∷ es) =
      let rest = check_edges node_id_set (idx + 1) es in
      if contains e.src node_id_set
      then if contains e.dst node_id_set
        then if eqb e.src e.dst then some (self_loop idx) else rest
        else some (unknown_dst idx)
      else some (unknown_src idx)

  abbrev pub node_ids : GraphSnapshot F → List Text
  node_ids snap = map (λ (n : Node F). n.id) snap.nodes

  -- `none` is a return without an exception.
  unfoldable pub validate_graph_snapshot :
      (GraphSnapshot F → Bool) → GraphSnapshot F → Option Violation
  unfolding any_repeated check_edges
  validate_graph_snapshot valid snap =
      if valid snap
      then if ltb snap.end snap.start
        then some end_before_start
        else if any_repeated (node_ids snap) (node_ids snap)
        then some duplicate_ids
        else check_edges (of_list (node_ids snap)) 0 snap.edges
      else some schema_violation
