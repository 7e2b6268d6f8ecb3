-- ===== src/Engine/Adjacency.antt =====
-- engine/tensor/adjacency.py and sparse.py: the dense and the sparse adjacency matrix of a snapshot. A
-- matrix is a function of its row and column; `F` holds the float32 values, to which a weight is
-- converted. `coalesce` is torch's.
pub mod Symmetry
pub mod Storage
mod Tests
use ai_quantum.Common.{
  ℕ, ◌+◌, ◌==◌, ◌&&◌, List, [], ◌∷◌, ◌++◌, Option, none, some, if◌then◌else◌, Outcome, ok, err,
}
use ai_quantum.Common.Text.{Text}
use ai_quantum.Common.Eq.{text_eq_instance}
use ai_quantum.Common.Dict.{get, put}
use ai_quantum.Common.Float.{Float}
use ai_quantum.Core.Snapshot.{Node, Edge, GraphSnapshot}

-- The `ValueError`s, with the id that is no node's.
pub data Dangling : Type 0 where
  unknown_src unknown_dst : Text → Dangling

abbrev pub Matrix : Type 0 → Type 0
Matrix F = ℕ → ℕ → F

module _ {F : Type 0} where
  -- `for i, node in enumerate(nodes): index[node["id"]] = i`.
  unfoldable pub index_from : ℕ → List (Node F) → List (Text × ℕ) → List (Text × ℕ)
  index_from i [] index = index
  index_from i (node ∷ nodes) index = index_from (i + 1) nodes (put node.id i index)

  -- The row and the column of an edge, or what is raised.
  unfoldable pub ends : List (Text × ℕ) → Edge F → Outcome Dangling (ℕ × ℕ)
  ends index e = elim (get e.src index) [
    | none ↦ err (unknown_src e.src)
    | some i ↦ elim (get e.dst index) [ none ↦ err (unknown_dst e.dst) | some j ↦ ok (i, j) ]
  ]

  -- The entries that one edge appends to the rows, columns and values.
  abbrev pub entries_of : F → ℕ × ℕ → List (ℕ × ℕ × F)
  entries_of w (i, j) = if i == j then (i, i, w) ∷ [] else (i, j, w) ∷ (j, i, w) ∷ []

  unfoldable pub coo_edges :
      List (Text × ℕ) → List (Edge F) → List (ℕ × ℕ × F) → Outcome Dangling (List (ℕ × ℕ × F))
  unfolding ends
  coo_edges index [] entries = ok entries
  coo_edges index (e ∷ es) entries = elim (ends index e) [
    | err x ↦ err x
    | ok p ↦ coo_edges index es (entries ++ entries_of e.weight p)
  ]

module _ {F : Type 0} ⦃f : Float F⦄ where
  abbrev pub zeros : Matrix F
  zeros a b = f.of_ℕ 0

  -- `adj[i, j] += w`.
  abbrev pub add_at : ℕ → ℕ → F → Matrix F → Matrix F
  add_at i j w m = λ a b. if a == i && b == j then f.add (m a b) w else m a b

  abbrev pub add_edge : F → ℕ × ℕ → Matrix F → Matrix F
  add_edge w (i, j) m = if i == j then add_at i i w m else add_at j i w (add_at i j w m)

  unfoldable pub dense_edges :
      List (Text × ℕ) → List (Edge F) → Matrix F → Outcome Dangling (Matrix F)
  unfolding ends
  dense_edges index [] m = ok m
  dense_edges index (e ∷ es) m = elim (ends index e) [
    | err x ↦ err x
    | ok p ↦ dense_edges index es (add_edge e.weight p m)
  ]

  unfoldable pub adjacency_tensor : GraphSnapshot F → Outcome Dangling (Matrix F)
  unfolding index_from dense_edges
  adjacency_tensor graph = dense_edges (index_from 0 graph.nodes []) graph.edges zeros

  abbrev pub with_matrix :
      (List (ℕ × ℕ × F) → Matrix F)
      → Outcome Dangling (List (ℕ × ℕ × F))
      → Outcome Dangling (Matrix F)
  with_matrix coalesce (err x) = err x
  with_matrix coalesce (ok entries) = ok (coalesce entries)

  unfoldable pub sparse_adjacency_tensor :
      (List (ℕ × ℕ × F) → Matrix F) → GraphSnapshot F → Outcome Dangling (Matrix F)
  unfolding index_from coo_edges
  sparse_adjacency_tensor coalesce graph =
      with_matrix coalesce (coo_edges (index_from 0 graph.nodes []) graph.edges [])
