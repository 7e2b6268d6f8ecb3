-- ===== src/Engine/Graph/Builder/Sound.antt =====
-- What `build_graph` returns and raises.
use ai_quantum.Common.{
  Bool, true, ◌&&◌, ◌≡◌, refl, subst, inl, inr, Bool-cases, List, [], ◌∷◌, Option, none, some,
  Outcome, ok, err,
}
use ai_quantum.Common.Text.{Text}
use ai_quantum.Common.Dict.Keys.{All}
use ai_quantum.Common.Float.{Float}
use ai_quantum.Core.Snapshot.{GraphSnapshot, schema_violation, validate_graph_snapshot}
use ai_quantum.Core.Snapshot.Invariants.{IsSound, validate_graph_snapshot-IsSound}
use ai_quantum.Ingestion.Event.{TickDataEvent}
use ai_quantum.Engine.Graph.{Env, Gathered, nothing, gather, timed, with_time}
use ai_quantum.Engine.Graph.Consistent.{HasNoColon, IsConsistent, AreColonFree, gather_lem}
use ai_quantum.Engine.Graph.Builder.{
  BuildError, refused, no_events, bad_timestamp, bad_amount, model_violation, node_fits, edge_fits,
  all_fit, max_time, snapshot, checked, gathered, at_times, build_graph,
}
use ai_quantum.Engine.Graph.Builder.Invariants.{snapshot-IsSound}

-- A snapshot is sound; and where the validation refuses it, the schema does.
abbrev pub IsRight :
    {F : Type 0} → (GraphSnapshot F → Bool) → Outcome BuildError (GraphSnapshot F) → Type 0
IsRight valid (ok snap) = IsSound valid snap
IsRight valid (err (refused v)) = v ≡ schema_violation
IsRight valid (err no_events) = Unit
IsRight valid (err bad_timestamp) = Unit
IsRight valid (err bad_amount) = Unit
IsRight valid (err model_violation) = Unit

with_time-AreColonFree :
    {F Time : Type 0} ⦃f : Float F⦄ (env : Env F Time) (e : TickDataEvent) (t : Option Time)
    (rest : Option (List (TickDataEvent × Time))) (ts : List (TickDataEvent × Time))
    → HasNoColon e.protocol
    → ((us : List (TickDataEvent × Time)) → rest ≡ some us → AreColonFree env us)
    → with_time e t rest ≡ some ts
    → AreColonFree env ts
with_time-AreColonFree env e none rest ts n ih h = cc h
with_time-AreColonFree env e (some t) none ts n ih h = cc h
with_time-AreColonFree env e (some t) (some us) ts n ih h =
    let same : (e, t) ∷ us ≡ ts = cc h in subst (AreColonFree env) same (n, ih us refl)

timed-AreColonFree :
    {F Time : Type 0} ⦃f : Float F⦄ (env : Env F Time) (es : List TickDataEvent)
    (ts : List (TickDataEvent × Time))
    → All (λ (e : TickDataEvent). HasNoColon e.protocol) es
    → timed env.parse_ts es ≡ some ts
    → AreColonFree env ts
unfolding timed
timed-AreColonFree env [] ts n h = let same : [] ≡ ts = cc h in subst (AreColonFree env) same tt
timed-AreColonFree env (e ∷ es) ts n h =
    with_time-AreColonFree env e (env.parse_ts e.block_timestamp) (timed env.parse_ts es) ts n.0
      (λ us. timed-AreColonFree env es us n.1) h

module _ {F Time : Type 0} ⦃f : Float F⦄ (env : Env F Time) (valid : GraphSnapshot F → Bool)
    (snapshot_id created_at : Text) where
  checked-IsRight :
      (snap : GraphSnapshot F)
      → (valid snap ≡ true → IsSound valid snap)
      → IsRight valid (checked env valid snapshot_id created_at snap)
  unfolding validate_graph_snapshot
  checked-IsRight snap sound =
      elim (Bool-cases (all_fit (node_fits env) snap.nodes && all_fit (edge_fits env) snap.edges)) [
        | inr misfit ↦ rw misfit tt
        | inl fits ↦ elim (Bool-cases (valid snap)) [
          | inr refused' ↦ rw (fits, refused', checked) refl
          | inl accepted ↦
              let s = sound accepted in
              rw (fits, (validate_graph_snapshot-IsSound valid snap).1 s, checked) s
        ]
      ]

  gathered-IsRight :
      (e : TickDataEvent) (es : List TickDataEvent) (t : Time) (o : Option (Gathered env))
      → ((g : Gathered env) → o ≡ some g → IsConsistent env g)
      → IsRight valid (gathered env valid snapshot_id created_at e es t o)
  gathered-IsRight e es t none c = tt
  gathered-IsRight e es t (some g) c =
      checked-IsRight (snapshot env valid snapshot_id created_at e es t g)
        (snapshot-IsSound env g (c g refl) t valid snapshot_id created_at e es)

  at_times-IsRight :
      (e : TickDataEvent) (es : List TickDataEvent) (o : Option (List (TickDataEvent × Time)))
      → ((ts : List (TickDataEvent × Time)) → o ≡ some ts → AreColonFree env ts)
      → IsRight valid (at_times env valid snapshot_id created_at e es o)
  at_times-IsRight e es none n = tt
  at_times-IsRight e es (some []) n = tt
  at_times-IsRight e es (some ((e', t) ∷ rest)) n =
      gathered-IsRight e es (max_time env t rest) (gather env ((e', t) ∷ rest) (nothing env))
        (λ g. gather_lem env ((e', t) ∷ rest) g (n ((e', t) ∷ rest) refl))

  -- Snapshots of the builder are sound: whatever the events, if no protocol's name has a colon,
  -- `build_graph` returns a snapshot that the schema accepts, whose block range does not end before
  -- it starts, whose node ids are all different, and whose edges each join two different nodes of
  -- it; or it raises, and if it is the validation that raises, then for the schema and for
  -- none of these invariants.
  pub build_graph-IsRight :
      (events : List TickDataEvent)
      → All (λ (e : TickDataEvent). HasNoColon e.protocol) events
      → IsRight valid (build_graph env valid snapshot_id created_at events)
  unfolding build_graph
  build_graph-IsRight [] n = tt
  build_graph-IsRight (e ∷ es) n =
      at_times-IsRight e es (timed env.parse_ts (e ∷ es))
        (λ ts. timed-AreColonFree env (e ∷ es) ts n)
