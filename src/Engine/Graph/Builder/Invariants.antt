-- ===== src/Engine/Graph/Builder/Invariants.antt =====
-- The snapshots of `build_graph` have the invariants that their validation asks for.
use ai_quantum.Common.{
  ltb, Bool, true, false, ◌≡◌, refl, ap, subst, inl, inr, Bool-cases, List, [], ◌∷◌, ◌++◌, map,
  length, arith,
}
use ai_quantum.Common.Text.{Text, text_eq_iff}
use ai_quantum.Common.Eq.{eqb, text_eq_instance}
use ai_quantum.Common.Dict.{keys}
use ai_quantum.Common.Dict.Keys.{All, has, get-has, All-get}
use ai_quantum.Common.Set.{contains, sorted, IsUnique}
use ai_quantum.Common.Float.{Float}
use ai_quantum.Core.Snapshot.{Node, GraphSnapshot}
use ai_quantum.Core.Snapshot.Invariants.{AreJoined, IsSound}
use ai_quantum.Ingestion.Event.{TickDataEvent}
use ai_quantum.Engine.Graph.{Env, Pair, pair_instance, Gathered, get_default, protocol_of}
use ai_quantum.Engine.Graph.Consistent.{HasNoColon, IsConsistent}
use ai_quantum.Engine.Graph.Edges.{
  RawEdge, protocol_id, pool_id, token_edge, protocol_edge, shared_edge, token_shared, shared_edges,
  raw_edges, max_raw, pairs, text_leb,
}
use ai_quantum.Engine.Graph.Ids.{
  pool_id-token_id, protocol_id-pool_id, pool_id-pool_id, IsPairOf, All-append, pairs-sorted,
}
use ai_quantum.Engine.Graph.Builder.{pool_types, node_types, node_of, edge_of, snapshot}
use ai_quantum.Engine.Graph.Builder.Nodes.{
  ArePut, ArePut-pool_types, has-token_types, token-token_types, pool_types-IsUnique,
  token_types-IsUnique, min_block-le, le-max_block,
}

-- An edge between two different nodes.
abbrev IsJoin : {F Time : Type 0} → List Text → RawEdge F Time → Type 0
IsJoin ids e = (contains e.src ids ≡ true) × (contains e.dst ids ≡ true) × (eqb e.src e.dst ≡ false)

All-of_map :
    {A B : Type 0} (P : A → Type 0) (Q : B → Type 0) (h : A → B) (xs : List A)
    → ((x : A) → P x → Q (h x))
    → All P xs
    → All Q (map h xs)
All-of_map P Q h [] k i = tt
All-of_map P Q h (x ∷ xs) k i = (k x i.0, All-of_map P Q h xs k i.1)

module _ {F Time : Type 0} ⦃f : Float F⦄ (env : Env F Time) (g : Gathered env)
    (c : IsConsistent env g) (t_latest : Time) where
  abbrev ids : List Text
  ids = keys (node_types env g)

  pool_node :
      (p : Text)
      → has p g.pool_protocol ≡ true
      → (contains (pool_id (protocol_of g.pool_protocol p) p) ids ≡ true)
        × HasNoColon (protocol_of g.pool_protocol p)
  unfolding node_types
  pool_node p h =
      let (pr, e) = get-has p g.pool_protocol h in
      let put' =
        All-get (ArePut (pool_types [] g.pool_protocol)) p pr g.pool_protocol e
          (ArePut-pool_types [] g.pool_protocol) in
      let plain =
        All-get (λ (k : Text × Text). HasNoColon k.1) p pr g.pool_protocol e c.protocols in
      rw (e, get_default)
        (
          has-token_types (pool_id pr p) (pool_types [] g.pool_protocol) (keys g.token_pools)
              put'.0,
          plain,
        )

  token_edges-IsJoin : All (IsJoin ids) (map (token_edge env g t_latest) g.pool_token_vol)
  unfolding token_edge node_types
  token_edges-IsJoin =
      All-of_map
        (λ (k : Pair × F). (has k.0.0 g.pool_protocol ≡ true) × (has k.0.1 g.token_pools ≡ true))
        (IsJoin ids) (token_edge env g t_latest) g.pool_token_vol
        (λ k h. (
          (pool_node k.0.0 h.0).0,
          token-token_types k.0.1 (pool_types [] g.pool_protocol) (keys g.token_pools) h.1,
          pool_id-token_id (protocol_of g.pool_protocol k.0.0) k.0.0 k.0.1,
        ))
        c.volumes

  protocol_edges-IsJoin : All (IsJoin ids) (map (protocol_edge env g t_latest) g.pool_protocol)
  unfolding protocol_edge node_types
  protocol_edges-IsJoin =
      All-of_map (ArePut (pool_types [] g.pool_protocol)) (IsJoin ids)
        (protocol_edge env g t_latest) g.pool_protocol
        (λ k h. (
          has-token_types (protocol_id k.1) (pool_types [] g.pool_protocol) (keys g.token_pools)
              h.1,
          has-token_types (pool_id k.1 k.0) (pool_types [] g.pool_protocol) (keys g.token_pools)
              h.0,
          protocol_id-pool_id k.1 k.0,
        ))
        (ArePut-pool_types [] g.pool_protocol)

  All-contains :
      (P : Text → Type 0) (x : Text) (xs : List Text) → contains x xs ≡ true → All P xs → P x
  unfolding contains
  All-contains P x [] h k = let bad : false ≡ true = h in absurd (cc bad)
  All-contains P x (y ∷ ys) h k = elim (Bool-cases (eqb y x)) [
    | inl same ↦ subst P ((text_eq_iff y x).0 same) k.0
    | inr other ↦ All-contains P x ys (ground (arith, other)) k.1
  ]

  token_shared-IsJoin :
      (token : Text) (pools : List Text)
      → All (λ (p : Text). has p g.pool_protocol ≡ true) pools
      → IsUnique pools
      → All (IsJoin ids) (token_shared env g t_latest (token, pools))
  unfolding token_shared shared_edge
  token_shared-IsJoin token pools all once = elim (Bool-cases (ltb (length pools) 2)) [
    | inl few ↦ rw few tt
    | inr many ↦ rw many (
        All-of_map (IsPairOf pools) (IsJoin ids) (shared_edge env g t_latest token)
          (pairs (sorted text_leb pools))
          (λ q h.
            let (in_first, in_second, differ) = h in
            let (a, na) = pool_node q.0 (All-contains _ q.0 pools in_first all) in
            let (b, nb) = pool_node q.1 (All-contains _ q.1 pools in_second all) in
            (a, b, pool_id-pool_id _ _ q.0 q.1 na nb differ))
          (pairs-sorted pools once))
  ]

  shared_edges-IsJoin :
      (d : List (Text × List Text))
      → All
          (λ (k : Text × List Text).
            All (λ (p : Text). has p g.pool_protocol ≡ true) k.1 × IsUnique k.1)
          d
      → All (IsJoin ids) (shared_edges env g t_latest d)
  unfolding shared_edges
  shared_edges-IsJoin [] h = tt
  shared_edges-IsJoin ((token, pools) ∷ d) h =
      All-append (IsJoin ids) (token_shared env g t_latest (token, pools))
        (shared_edges env g t_latest d) (token_shared-IsJoin token pools h.0.0 h.0.1)
        (shared_edges-IsJoin d h.1)

  pub raw_edges-IsJoin : All (IsJoin ids) (raw_edges env g t_latest)
  unfolding raw_edges
  raw_edges-IsJoin =
      All-append (IsJoin ids) (map (token_edge env g t_latest) g.pool_token_vol)
        (map (protocol_edge env g t_latest) g.pool_protocol
          ++ shared_edges env g t_latest g.token_pools)
        token_edges-IsJoin
        (All-append (IsJoin ids) (map (protocol_edge env g t_latest) g.pool_protocol)
          (shared_edges env g t_latest g.token_pools) protocol_edges-IsJoin
          (shared_edges-IsJoin g.token_pools c.pools))

  AreJoined-edge_of :
      (top : F) (es : List (RawEdge F Time))
      → All (IsJoin ids) es
      → AreJoined ids (map (edge_of env g t_latest top) es)
  unfolding edge_of
  AreJoined-edge_of top [] h = tt
  AreJoined-edge_of top (e ∷ es) h = (h.0, AreJoined-edge_of top es h.1)

  ids-node_of :
      (raw : List (RawEdge F Time)) (d : List (Text × Text))
      → map (λ (n : Node F). n.id) (map (node_of env g raw) d) ≡ keys d
  unfolding node_of keys
  ids-node_of raw [] = refl
  ids-node_of raw ((id, t) ∷ d) = ap (λ (ids : List Text). id ∷ ids) (ids-node_of raw d)

  ids-IsUnique : IsUnique ids
  unfolding node_types keys
  ids-IsUnique =
      token_types-IsUnique (pool_types [] g.pool_protocol) (keys g.token_pools)
        (pool_types-IsUnique [] g.pool_protocol tt)

  -- All that the schema does not say.
  pub snapshot-IsSound :
      (valid : GraphSnapshot F → Bool) (snapshot_id created_at : Text) (e : TickDataEvent)
      (es : List TickDataEvent)
      → let snap = snapshot env valid snapshot_id created_at e es t_latest g in
        valid snap ≡ true → IsSound valid snap
  unfolding snapshot
  snapshot-IsSound valid snapshot_id created_at e es v =
      let raw = raw_edges env g t_latest in
      let top = max_raw env g t_latest (f.of_ℕ 0) raw in
      let same = ids-node_of raw (node_types env g) in
      record {
        schema = v;
        range = omega (arith, min_block-le e.block_number es, le-max_block e.block_number es);
        unique = rw same ids-IsUnique;
        joined = rw same (AreJoined-edge_of top raw raw_edges-IsJoin);
      }
