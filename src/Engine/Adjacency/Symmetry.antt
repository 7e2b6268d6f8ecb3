-- ===== src/Engine/Adjacency/Symmetry.antt =====
-- The dense and the sparse matrix are the same, and symmetric.
use ai_quantum.Common.{
  ℕ, ◌==◌, ◌≡◌, refl, ◌∙◌, sym, ap, List, [], ◌∷◌, ◌++◌, arith, subst, Bool-cases, inl, inr,
  Outcome, Outcome-cases, ok, err,
}
use ai_quantum.Common.Text.{Text}
use ai_quantum.Common.Float.{Float}
use ai_quantum.Core.Snapshot.{Edge, GraphSnapshot}
use ai_quantum.Engine.Adjacency.{
  Dangling, Matrix, index_from, ends, entries_of, coo_edges, zeros, add_at, add_edge, dense_edges,
  adjacency_tensor, with_matrix, sparse_adjacency_tensor,
}

module _ {F : Type 0} ⦃f : Float F⦄ where
  -- A matrix with the entries' values added to their cells, in the order of the entries.
  abbrev pub sum_into : Matrix F → List (ℕ × ℕ × F) → Matrix F
  sum_into m [] = m
  sum_into m ((i, j, w) ∷ entries) = sum_into (add_at i j w m) entries

  sum_into-append :
      (m : Matrix F) (xs ys : List (ℕ × ℕ × F))
      → sum_into m (xs ++ ys) ≡ sum_into (sum_into m xs) ys
  sum_into-append m [] ys = refl
  sum_into-append m ((i, j, w) ∷ xs) ys = sum_into-append (add_at i j w m) xs ys

  sum_into-entries_of :
      (w : F) (p : ℕ × ℕ) (m : Matrix F) → sum_into m (entries_of w p) ≡ add_edge w p m
  sum_into-entries_of w (i, j) m = elim (Bool-cases (i == j)) [
    | inl same ↦ rw same
    | inr differ ↦ rw differ
  ]

  dense-eq-coo :
      (index : List (Text × ℕ)) (es : List (Edge F)) (entries : List (ℕ × ℕ × F))
      → dense_edges index es (sum_into zeros entries)
        ≡ with_matrix (sum_into zeros) (coo_edges index es entries)
  unfolding dense_edges coo_edges
  dense-eq-coo index [] entries = refl
  dense-eq-coo index (e ∷ es) entries = elim (Outcome-cases (ends index e)) [
    | inl (x, q) ↦ rw (q, dense_edges, coo_edges)
    | inr (p, q) ↦
        let step : add_edge e.weight p (sum_into zeros entries)
            ≡ sum_into zeros (entries ++ entries_of e.weight p) =
          sym (
            sum_into-append zeros entries (entries_of e.weight p)
            ∙ sum_into-entries_of e.weight p (sum_into zeros entries)) in
        rw (q, dense_edges, coo_edges)
          (ap (dense_edges index es) step
            ∙ dense-eq-coo index es (entries ++ entries_of e.weight p))
  ]

  pub record IsSymmetric (m : Matrix F) : Type 0 where
    pub mirrored : (a b : ℕ) → m a b ≡ m b a

  IsSymmetric-add_edge :
      (w : F) (p : ℕ × ℕ) (m : Matrix F) → IsSymmetric m → IsSymmetric (add_edge w p m)
  IsSymmetric-add_edge w (i, j) m h = record { mirrored = λ a b. ground (arith, h.mirrored a b) }

  IsSymmetric-dense_edges :
      (index : List (Text × ℕ)) (es : List (Edge F)) (m m' : Matrix F)
      → IsSymmetric m
      → dense_edges index es m ≡ ok m'
      → IsSymmetric m'
  unfolding dense_edges
  IsSymmetric-dense_edges index [] m m' h k = let e : m ≡ m' = cc k in subst IsSymmetric e h
  IsSymmetric-dense_edges index (e ∷ es) m m' h k = elim (Outcome-cases (ends index e)) [
    | inl (x, q) ↦
        let bad : err x ≡ ok m' = rw (q, dense_edges) at k in record { mirrored = λ a b. cc bad }
    | inr (p, q) ↦
        IsSymmetric-dense_edges index es (add_edge e.weight p m) m'
          (IsSymmetric-add_edge e.weight p m h) (rw (q, dense_edges) at k)
  ]

  with_matrix-coalesce :
      (coalesce : List (ℕ × ℕ × F) → Matrix F) (o : Outcome Dangling (List (ℕ × ℕ × F)))
      → ((entries : List (ℕ × ℕ × F)) → coalesce entries ≡ sum_into zeros entries)
      → with_matrix coalesce o ≡ with_matrix (sum_into zeros) o
  with_matrix-coalesce coalesce (err x) law = refl
  with_matrix-coalesce coalesce (ok entries) law = ap ok (law entries)

  -- If `coalesce` sums the entries of each cell in their order, starting from zero, the sparse
  -- builder gives the dense builder's matrix on every snapshot, and raises where it raises.
  pub sparse-eq-dense :
      (coalesce : List (ℕ × ℕ × F) → Matrix F) (graph : GraphSnapshot F)
      → ((entries : List (ℕ × ℕ × F)) → coalesce entries ≡ sum_into zeros entries)
      → sparse_adjacency_tensor coalesce graph ≡ adjacency_tensor graph
  unfolding sparse_adjacency_tensor adjacency_tensor
  sparse-eq-dense coalesce graph law =
      let index = index_from 0 graph.nodes [] in
      with_matrix-coalesce coalesce (coo_edges index graph.edges []) law
      ∙ sym (dense-eq-coo index graph.edges [])

  -- The adjacency matrix is symmetric, whatever the directions of the edges, their number between
  -- two nodes, and the self-loops.
  pub adjacency_tensor-IsSymmetric :
      (graph : GraphSnapshot F) (m : Matrix F) → adjacency_tensor graph ≡ ok m → IsSymmetric m
  unfolding adjacency_tensor
  adjacency_tensor-IsSymmetric graph m h =
      IsSymmetric-dense_edges (index_from 0 graph.nodes []) graph.edges zeros m
        (record { mirrored = λ a b. refl }) h
