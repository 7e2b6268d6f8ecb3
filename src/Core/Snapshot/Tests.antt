-- ===== src/Core/Snapshot/Tests.antt =====
-- Snapshots that pass and that fail the validation, and an instance of the theorem.
use ai_quantum.Common.{ℕ, ◌≡◌, ◌↔◌, refl, true, List, [], ◌∷◌, none, some}
use ai_quantum.Common.Text.{Text, codes, text_eq}
use ai_quantum.Common.Set.{contains, of_list}
use ai_quantum.Core.Snapshot.{
  Node, Edge, GraphSnapshot, unknown_dst, self_loop, duplicate_ids, validate_graph_snapshot,
}
use ai_quantum.Core.Snapshot.Invariants.{IsSound, validate_graph_snapshot-IsSound}

abbrev node : Text → Node ℕ
node id = record {
  id = id;
  node_type = codes "pool";
  features = record {
    tvl_usd = 0;
    volume_24h_usd = 0;
    price_usd = 0;
    volatility = 0;
    connectivity = 0;
  };
}

abbrev edge : Text → Text → Edge ℕ
edge src dst = record { src = src; dst = dst; weight = 1; edge_type = codes "liquidity_flow" }

abbrev snapshot : List (Node ℕ) → List (Edge ℕ) → GraphSnapshot ℕ
snapshot nodes edges = record {
  snapshot_id = codes "s";
  start = 3;
  end = 5;
  created_at = codes "2023-03-11T00:00:00Z";
  nodes = nodes;
  edges = edges;
}

abbrev pair : List (Node ℕ)
pair = node (codes "a") ∷ node (codes "b") ∷ []

passes :
    validate_graph_snapshot (λ s. true) (snapshot pair (edge (codes "a") (codes "b") ∷ [])) ≡ none
unfolding validate_graph_snapshot text_eq contains of_list
passes = refl

dangles :
    validate_graph_snapshot
      (λ s. true)
      (snapshot pair (edge (codes "a") (codes "b") ∷ edge (codes "a") (codes "c") ∷ []))
    ≡ some (unknown_dst 1)
unfolding validate_graph_snapshot text_eq contains of_list
dangles = refl

loops :
    validate_graph_snapshot (λ s. true) (snapshot pair (edge (codes "a") (codes "a") ∷ []))
    ≡ some (self_loop 0)
unfolding validate_graph_snapshot text_eq contains of_list
loops = refl

repeats :
    validate_graph_snapshot (λ s. true) (snapshot (node (codes "a") ∷ pair) []) ≡ some duplicate_ids
unfolding validate_graph_snapshot text_eq contains of_list
repeats = refl

validate_graph_snapshot-IsSound_example :
    (validate_graph_snapshot (λ s. true) (snapshot pair (edge (codes "a") (codes "b") ∷ [])) ≡ none)
    ↔ IsSound (λ s. true) (snapshot pair (edge (codes "a") (codes "b") ∷ []))
validate_graph_snapshot-IsSound_example =
    validate_graph_snapshot-IsSound (λ s. true) (snapshot pair (edge (codes "a") (codes "b") ∷ []))
