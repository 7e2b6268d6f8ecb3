-- ===== src/Engine/Graph/Builder/Nodes.antt =====
-- The nodes that `build_graph` puts into its dictionary of types, and the ends of its block range.
use ai_quantum.Common.{
  ℕ, ◌≤◌, true, false, ◌≡◌, inl, inr, Bool-cases, List, [], ◌∷◌, arith, min, max,
}
use ai_quantum.Common.Text.{Text, text_eq_iff}
use ai_quantum.Common.Eq.{eqb, text_eq_instance}
use ai_quantum.Common.Dict.{put, keys}
use ai_quantum.Common.Dict.Keys.{All, has, has-put_self, has-put_old, put-IsUnique}
use ai_quantum.Common.Set.{contains, IsUnique}
use ai_quantum.Ingestion.Event.{TickDataEvent}
use ai_quantum.Engine.Graph.{pair_instance}
use ai_quantum.Engine.Graph.Edges.{protocol_id, pool_id, token_id}
use ai_quantum.Engine.Graph.Builder.{put_pool, pool_types, token_types, min_block, max_block}

-- The pool's node and its protocol's are there.
abbrev pub ArePut : List (Text × Text) → Text × Text → Type 0
ArePut d q = (has (pool_id q.1 q.0) d ≡ true) × (has (protocol_id q.1) d ≡ true)

has-put_pool :
    (k pool protocol : Text) (d : List (Text × Text))
    → has k d ≡ true
    → has k (put_pool pool protocol d) ≡ true
has-put_pool k pool protocol d h = has-put_old _ k _ _ (has-put_old _ k _ d h)

has-pool_types :
    (k : Text) (d items : List (Text × Text)) → has k d ≡ true → has k (pool_types d items) ≡ true
unfolding pool_types
has-pool_types k d [] h = h
has-pool_types k d ((pool, protocol) ∷ items) h =
    has-pool_types k (put_pool pool protocol d) items (has-put_pool k pool protocol d h)

pub ArePut-pool_types : (d items : List (Text × Text)) → All (ArePut (pool_types d items)) items
unfolding pool_types
ArePut-pool_types d [] = tt
ArePut-pool_types d ((pool, protocol) ∷ items) =
    let d' = put_pool pool protocol d in
    (
      (
        has-pool_types (pool_id protocol pool) d' items (has-put_self _ _ _),
        has-pool_types (protocol_id protocol) d' items
            (has-put_old _ (protocol_id protocol) _ _ (has-put_self _ _ d)),
      ),
      ArePut-pool_types d' items,
    )

pub has-token_types :
    (k : Text) (d : List (Text × Text)) (ts : List Text)
    → has k d ≡ true
    → has k (token_types d ts) ≡ true
unfolding token_types
has-token_types k d [] h = h
has-token_types k d (t ∷ ts) h = has-token_types k (put (token_id t) _ d) ts (has-put_old _ k _ d h)

pub token-token_types :
    (t : Text) (d : List (Text × Text)) (ts : List Text)
    → contains t ts ≡ true
    → has (token_id t) (token_types d ts) ≡ true
unfolding token_types contains
token-token_types t d [] h = let bad : false ≡ true = h in cc bad
token-token_types t d (u ∷ ts) h = elim (Bool-cases (eqb u t)) [
  | inl same ↦
      let e : u ≡ t = (text_eq_iff u t).0 same in
      rw e (has-token_types (token_id t) _ ts (has-put_self (token_id t) _ d))
  | inr other ↦ token-token_types t (put (token_id u) _ d) ts (ground (arith, other))
]

pub pool_types-IsUnique :
    (d items : List (Text × Text)) → IsUnique (keys d) → IsUnique (keys (pool_types d items))
unfolding pool_types
pool_types-IsUnique d [] u = u
pool_types-IsUnique d ((pool, protocol) ∷ items) u =
    pool_types-IsUnique (put_pool pool protocol d) items (put-IsUnique _ _ _ (put-IsUnique _ _ d u))

pub token_types-IsUnique :
    (d : List (Text × Text)) (ts : List Text)
    → IsUnique (keys d)
    → IsUnique (keys (token_types d ts))
unfolding token_types
token_types-IsUnique d [] u = u
token_types-IsUnique d (t ∷ ts) u =
    token_types-IsUnique (put (token_id t) _ d) ts (put-IsUnique _ _ d u)

pub min_block-le : (n : ℕ) (es : List TickDataEvent) → min_block n es ≤ n
min_block-le n [] = omega arith
min_block-le n (e ∷ es) = omega (arith, min_block-le (min n e.block_number) es)

pub le-max_block : (n : ℕ) (es : List TickDataEvent) → n ≤ max_block n es
le-max_block n [] = omega arith
le-max_block n (e ∷ es) = omega (arith, le-max_block (max n e.block_number) es)
