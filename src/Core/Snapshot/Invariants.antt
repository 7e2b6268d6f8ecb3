-- ===== src/Core/Snapshot/Invariants.antt =====
-- The snapshots that pass the validation are those with the documented invariants.
use ai_quantum.Common.{
  ℕ, ◌+◌, ◌≤◌, ◌≡◌, ◌↔◌, refl, ◌∙◌, Bool, true, false, List, [], ◌∷◌, none, arith,
}
use ai_quantum.Common.Text.{Text, text_eq_iff}
use ai_quantum.Common.Eq.{eqb, eqb_refl, text_eq_instance}
use ai_quantum.Common.Set.{contains, of_list, contains-of_list, IsUnique}
use ai_quantum.Core.Snapshot.{
  Edge, GraphSnapshot, count, any_repeated, check_edges, node_ids, validate_graph_snapshot,
}

module _ {F : Type 0} where
  -- Every edge joins two different ids of the list.
  abbrev pub AreJoined : List Text → List (Edge F) → Type 0
  AreJoined ids [] = Unit
  AreJoined ids (e ∷ es) =
      ((contains e.src ids ≡ true) × (contains e.dst ids ≡ true) × (eqb e.src e.dst ≡ false))
      × AreJoined ids es

  -- The invariants that the docstring lists.
  pub record IsSound (valid : GraphSnapshot F → Bool) (snap : GraphSnapshot F) : Type 0 where
    pub schema : valid snap ≡ true
    pub range : snap.start ≤ snap.end
    pub unique : IsUnique (node_ids snap)
    pub joined : AreJoined (node_ids snap) snap.edges

count-absent : (x : Text) (xs : List Text) → contains x xs ≡ false → count x xs ≡ 0
unfolding count contains
count-absent x [] h = refl
count-absent x (y ∷ ys) h = ground (arith, count-absent x ys)

count-present : (x : Text) (xs : List Text) → count x xs ≡ 0 → contains x xs ≡ false
unfolding count contains
count-present x [] h = refl
count-present x (y ∷ ys) h = ground (arith, count-present x ys)

-- A new first element that is not among the candidates does not change the answer.
any_repeated-skip :
    (x : Text) (ys xs : List Text)
    → contains x ys ≡ false
    → any_repeated ys (x ∷ xs) ≡ any_repeated ys xs
unfolding any_repeated count contains
any_repeated-skip x [] xs h = refl
any_repeated-skip x (y ∷ ys) xs h =
    ground (arith, text_eq_iff x y, text_eq_iff y x, any_repeated-skip x ys xs)

-- Fewer occurrences, fewer repetitions.
any_repeated-less :
    (x : Text) (ys xs : List Text) → any_repeated ys (x ∷ xs) ≡ false → any_repeated ys xs ≡ false
unfolding any_repeated count
any_repeated-less x [] xs h = refl
any_repeated-less x (y ∷ ys) xs h = ground (arith, any_repeated-less x ys xs)

IsUnique-any_repeated : (xs : List Text) → any_repeated xs xs ≡ false → IsUnique xs
unfolding any_repeated count
IsUnique-any_repeated [] h = tt
IsUnique-any_repeated (x ∷ xs) h =
    let once : count x xs ≡ 0 = ground (arith, eqb_refl x) in
    (count-present x xs once, IsUnique-any_repeated xs (any_repeated-less x xs xs (ground arith)))

any_repeated-IsUnique : (xs : List Text) → IsUnique xs → any_repeated xs xs ≡ false
unfolding any_repeated count
any_repeated-IsUnique [] h = refl
any_repeated-IsUnique (x ∷ xs) (fresh, h) =
    ground
      (arith, count-absent x xs fresh, any_repeated-skip x xs xs fresh, any_repeated-IsUnique xs h)

module _ {F : Type 0} where
  AreJoined-check_edges :
      (ids : List Text) (k : ℕ) (es : List (Edge F))
      → check_edges (of_list ids) k es ≡ none
      → AreJoined ids es
  unfolding check_edges
  AreJoined-check_edges ids k [] h = tt
  AreJoined-check_edges ids k (e ∷ es) h = ground (
    arith,
    contains-of_list e.src ids,
    contains-of_list e.dst ids,
    AreJoined-check_edges ids (k + 1) es,
  )

  check_edges-AreJoined :
      (ids : List Text) (k : ℕ) (es : List (Edge F))
      → AreJoined ids es
      → check_edges (of_list ids) k es ≡ none
  unfolding check_edges
  check_edges-AreJoined ids k [] h = refl
  check_edges-AreJoined ids k (e ∷ es) ((a, b, c), h) =
      rw (contains-of_list e.src ids ∙ a, contains-of_list e.dst ids ∙ b, c)
        (check_edges-AreJoined ids (k + 1) es h)

  -- A snapshot passes the validation exactly if the schema accepts it, its block range does not
  -- end before it starts, no node id occurs twice, and every edge joins two different nodes of
  -- the snapshot.
  pub validate_graph_snapshot-IsSound :
      (valid : GraphSnapshot F → Bool) (snap : GraphSnapshot F)
      → (validate_graph_snapshot valid snap ≡ none) ↔ IsSound valid snap
  unfolding validate_graph_snapshot
  validate_graph_snapshot-IsSound valid snap = (
    λ h. record {
      schema = ground arith;
      range = ground arith;
      unique = IsUnique-any_repeated (node_ids snap) (ground arith);
      joined = AreJoined-check_edges (node_ids snap) 0 snap.edges (ground arith);
    },
    λ s. ground (
      arith,
      s.schema,
      s.range,
      any_repeated-IsUnique (node_ids snap) s.unique,
      check_edges-AreJoined (node_ids snap) 0 snap.edges s.joined,
    ),
  )
