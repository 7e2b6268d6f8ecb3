-- ===== src/Engine/Graph/Consistent.antt =====
-- How the dictionaries that `build_graph` gathers fit together.
use ai_quantum.Common.{
  true, false, ◌≡◌, subst, inl, inr, Bool-cases, List, [], ◌∷◌, Option, none, some, Option-cases,
  arith, ◌==◌,
}
use ai_quantum.Common.Text.{Text, text_eq}
use ai_quantum.Common.Eq.{text_eq_instance}
use ai_quantum.Common.Dict.{get, put}
use ai_quantum.Common.Dict.Keys.{All, All-map, has, has-put_self, has-put_old, All-put, All-get}
use ai_quantum.Common.Set.{contains, add, add-IsUnique, IsUnique}
use ai_quantum.Common.Float.{Float}
use ai_quantum.Ingestion.Event.{TickDataEvent}
use ai_quantum.Engine.Graph.{
  Env, Pair, pair_instance, Gathered, nothing, get_default, with_amount, add_token, with_protocol,
  add_event, gather, zero_address,
}

-- The text has no colon.
abbrev pub HasNoColon : Text → Type 0
HasNoColon [] = Unit
HasNoColon (c ∷ s) = ((c == b':') ≡ false) × HasNoColon s

module _ {F Time : Type 0} ⦃f : Float F⦄ (env : Env F Time) where
  -- A pool that is somewhere has its protocol, and a token its pools, each once.
  pub record IsConsistent (g : Gathered env) : Type 0 where
    pub volumes :
        All
          (λ (k : Pair × F). (has k.0.0 g.pool_protocol ≡ true) × (has k.0.1 g.token_pools ≡ true))
          g.pool_token_vol
    pub pools :
        All
          (λ (k : Text × List Text).
            All (λ (p : Text). has p g.pool_protocol ≡ true) k.1 × IsUnique k.1)
          g.token_pools
    pub protocols : All (λ (k : Text × Text). HasNoColon k.1) g.pool_protocol

  nothing-IsConsistent : IsConsistent (nothing env)
  nothing-IsConsistent = record { volumes = tt; pools = tt; protocols = tt }

  with_protocol-IsConsistent :
      (e : TickDataEvent) (g : Gathered env)
      → HasNoColon e.protocol
      → IsConsistent g
      → IsConsistent (with_protocol env e g)
  with_protocol-IsConsistent e g n c =
      let keep = λ (p : Text) (h : has p g.pool_protocol ≡ true).
        has-put_old e.pool_address p e.protocol g.pool_protocol h in
      record {
        volumes = All-map g.pool_token_vol (λ k h. (keep k.0.0 h.0, h.1)) c.volumes;
        pools = All-map g.token_pools (λ k h. (All-map k.1 keep h.0, h.1)) c.pools;
        protocols =
            All-put (λ (k : Text × Text). HasNoColon k.1) e.pool_address e.protocol g.pool_protocol
              n c.protocols;
      }

  -- One more pool of a token.
  All-add : (P : Text → Type 0) (p : Text) (ps : List Text) → P p → All P ps → All P (add p ps)
  unfolding add
  All-add P p ps h k = elim (Bool-cases (contains p ps)) [
    | inl old ↦ rw old k
    | inr new ↦ rw new (h, k)
  ]

  abbrev ArePools : Gathered env → List Text → Type 0
  ArePools g ps = All (λ (p : Text). has p g.pool_protocol ≡ true) ps × IsUnique ps

  ArePools-default :
      (token : Text) (g : Gathered env)
      → IsConsistent g
      → ArePools g (get_default token [] g.token_pools)
  ArePools-default token g c = elim (Option-cases (get token g.token_pools)) [
    | inl absent ↦ rw (absent, get_default) (tt, tt)
    | inr (ps, present) ↦
        rw (present, get_default)
          (All-get (λ (k : Text × List Text). ArePools g k.1) token ps g.token_pools present
            c.pools)
  ]

  with_amount-IsConsistent :
      (pool token : Text) (ts : Time) (a : F) (g : Gathered env)
      → has pool g.pool_protocol ≡ true
      → IsConsistent g
      → IsConsistent (with_amount env pool token ts a g)
  with_amount-IsConsistent pool token ts a g h c =
      let before = get_default token [] g.token_pools in
      let ps = add pool before in
      let (all, once) = ArePools-default token g c in
      record {
        volumes =
            All-put
              (λ (k : Pair × F).
                (has k.0.0 g.pool_protocol ≡ true)
                × (has k.0.1 (put token ps g.token_pools) ≡ true))
              (pool, token) (f.add (get_default (pool, token) (f.of_ℕ 0) g.pool_token_vol) a)
              g.pool_token_vol (h, has-put_self token ps g.token_pools)
              (All-map g.pool_token_vol (λ k i. (i.0, has-put_old token k.0.1 ps g.token_pools i.1))
                c.volumes);
        pools =
            All-put (λ (k : Text × List Text). ArePools g k.1) token ps g.token_pools
              (
                All-add (λ (p : Text). has p g.pool_protocol ≡ true) pool before h all,
                add-IsUnique pool before once,
              )
              c.pools;
        protocols = c.protocols;
      }

  -- The state after a step that did not raise.
  abbrev Follows : Text → Option (Gathered env) → Type 0
  Follows pool none = Unit
  Follows pool (some g) = (has pool g.pool_protocol ≡ true) × IsConsistent g

  add_token-Follows :
      (pool token amount : Text) (ts : Time) (g : Gathered env)
      → has pool g.pool_protocol ≡ true
      → IsConsistent g
      → Follows pool (add_token env pool token amount ts g)
  unfolding add_token
  add_token-Follows pool token amount ts g h c = elim (Bool-cases (text_eq token zero_address)) [
    | inl zero ↦ rw zero (h, c)
    | inr other ↦ elim (Option-cases (env.abs_amount amount)) [
      | inl bad ↦ rw (other, bad, add_token) tt
      | inr (a, good) ↦
          rw (other, good, add_token) (h, with_amount-IsConsistent pool token ts a g h c)
    ]
  ]

  add_event-Follows :
      (e : TickDataEvent) (ts : Time) (g : Gathered env)
      → HasNoColon e.protocol
      → IsConsistent g
      → Follows e.pool_address (add_event env e ts g)
  unfolding add_event
  add_event-Follows e ts g n c =
      let g₀ = with_protocol env e g in
      let h₀ = has-put_self e.pool_address e.protocol g.pool_protocol in
      let first =
        add_token-Follows e.pool_address e.token0 e.amount0 ts g₀ h₀
          (with_protocol-IsConsistent e g n c) in
      elim (Option-cases (add_token env e.pool_address e.token0 e.amount0 ts g₀)) [
        | inl bad ↦ rw (bad, add_event) tt
        | inr (g₁, good) ↦
            let (h₁, c₁) = rw good at first in
            rw (good, add_event) (add_token-Follows e.pool_address e.token1 e.amount1 ts g₁ h₁ c₁)
      ]

  abbrev pub AreColonFree : List (TickDataEvent × Time) → Type 0
  AreColonFree = All (λ (e : TickDataEvent × Time). HasNoColon e.0.protocol)

  gather-IsConsistent :
      (es : List (TickDataEvent × Time)) (g g' : Gathered env)
      → AreColonFree es
      → IsConsistent g
      → gather env es g ≡ some g'
      → IsConsistent g'
  unfolding gather
  gather-IsConsistent [] g g' n c h =
      let same : g ≡ g' = ground (arith, h) in subst IsConsistent same c
  gather-IsConsistent ((e, ts) ∷ es) g g' n c h =
      let one = add_event-Follows e ts g n.0 c in
      elim (Option-cases (add_event env e ts g)) [
        | inl bad ↦ let wrong : none ≡ some g' = rw (bad, gather) at h in cc wrong
        | inr (g₁, good) ↦
            let (h₁, c₁) = rw good at one in
            gather-IsConsistent es g₁ g' n.1 c₁ (rw (good, gather) at h)
      ]

  pub gather_lem :
      (es : List (TickDataEvent × Time)) (g : Gathered env)
      → AreColonFree es
      → gather env es (nothing env) ≡ some g
      → IsConsistent g
  gather_lem es g n h = gather-IsConsistent es (nothing env) g n nothing-IsConsistent h
