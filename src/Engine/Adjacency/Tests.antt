-- ===== src/Engine/Adjacency/Tests.antt =====
-- The adjacency matrix of a snapshot with three edges, and instances of the theorems.
use ai_quantum.Common.{◌≡◌, refl, List, [], ◌∷◌, ok, err}
use ai_quantum.Common.Int.{ℤ, pos}
use ai_quantum.Common.Text.{Text, codes, text_eq}
use ai_quantum.Common.Dict.{get, put}
use ai_quantum.Common.Float.Exact.{sixteenths}
use ai_quantum.Core.Snapshot.{Node, Edge, GraphSnapshot}
use ai_quantum.Engine.Adjacency.{
  Matrix, unknown_dst, zeros, add_edge, adjacency_tensor, sparse_adjacency_tensor,
}
use ai_quantum.Engine.Adjacency.Symmetry.{
  sum_into, IsSymmetric, sparse-eq-dense, adjacency_tensor-IsSymmetric,
}

abbrev node : Text → Node ℤ
node id = record {
  id = id;
  node_type = codes "pool";
  features = record {
    tvl_usd = pos 0;
    volume_24h_usd = pos 0;
    price_usd = pos 0;
    volatility = pos 0;
    connectivity = pos 0;
  };
}

abbrev edge : Text → Text → Edge ℤ
edge src dst = record { src = src; dst = dst; weight = pos 8; edge_type = codes "liquidity_flow" }

abbrev graph : List (Edge ℤ) → GraphSnapshot ℤ
graph edges = record {
  snapshot_id = codes "s";
  start = 3;
  end = 5;
  created_at = codes "2023-03-11T00:00:00Z";
  nodes = node (codes "a") ∷ node (codes "b") ∷ [];
  edges = edges;
}

abbrev edges : List (Edge ℤ)
edges =
    edge (codes "a") (codes "b") ∷ edge (codes "b") (codes "a") ∷ edge (codes "b") (codes "b") ∷ []

abbrev expected : Matrix ℤ
expected = add_edge (pos 8) (1, 1) (add_edge (pos 8) (1, 0) (add_edge (pos 8) (0, 1) zeros))

has_matrix : adjacency_tensor (graph edges) ≡ ok expected
unfolding adjacency_tensor get put text_eq
has_matrix = refl

-- Two edges of a half each accumulate to one.
accumulates : expected 0 1 ≡ pos 16
accumulates = refl

dangles :
    adjacency_tensor (graph (edge (codes "a") (codes "c") ∷ [])) ≡ err (unknown_dst (codes "c"))
unfolding adjacency_tensor get put text_eq
dangles = refl

sparse-eq-dense_example :
    sparse_adjacency_tensor (sum_into zeros) (graph edges) ≡ adjacency_tensor (graph edges)
sparse-eq-dense_example = sparse-eq-dense (sum_into zeros) (graph edges) (λ entries. refl)

adjacency_tensor-IsSymmetric_example : IsSymmetric expected
adjacency_tensor-IsSymmetric_example =
    adjacency_tensor-IsSymmetric (graph edges) expected has_matrix
