-- ===== src/Engine/Mps/Naive/Shapes.antt =====
-- The fragility of a snapshot: the tensors that its builders give fit together.
use ai_quantum.Common.{
  ℕ, ◌≤◌, ◌≡◌, Bool, false, List, [], ◌∷◌, length, Option, none, some, Outcome, ok, err,
}
use ai_quantum.Common.Float.{Float}
use ai_quantum.Common.Dict.Keys.{All}
use ai_quantum.Core.Snapshot.{GraphSnapshot}
use ai_quantum.Engine.Adjacency.{Matrix, adjacency_tensor}
use ai_quantum.Engine.Features.{FeatureError, no_nodes, missing_feature, Warning}
use ai_quantum.Engine.Mps.Naive.{
  FragilityError, not_square, wrong_features, wrong_weights, negative_mass, linalg_error, dangling,
  features, Torch, is_vector, weighted_matrix,
}

module _ {F T : Type 0} ⦃f : Float F⦄ where
  -- The shapes of what torch builds.
  pub record HasShapes (torch : Torch F T) : Type 0 where
    pub of_matrix_shape : (n : ℕ) (m : Matrix F) → torch.shape (torch.of_matrix n m) ≡ n ∷ n ∷ []
    pub of_rows_shape :
        (n : ℕ) (rows : List (List F))
        → length rows ≡ n
        → All (λ (r : List F). length r ≡ 5) rows
        → 1 ≤ n
        → torch.shape (torch.of_rows rows) ≡ n ∷ 5 ∷ []
    pub to_float32_shape : (t : T) → torch.shape (torch.to_float32 t) ≡ torch.shape t

  module _ (torch : Torch F T) (p_eps : F) where
    -- What an exception of the scoring says, for tensors with `n` rows.
    abbrev pub IsExplained : ℕ → Option T → Outcome FragilityError F → Type 0
    IsExplained n weights (ok score) = Unit
    IsExplained n weights (err (not_square shape)) = ⊥
    IsExplained n weights (err (wrong_features shape)) = ⊥
    IsExplained n weights (err (wrong_weights shape)) =
        (w : T) × (weights ≡ some w)
        × (torch.shape (torch.to_float32 w) ≡ shape)
        × (is_vector 5 shape ≡ false)
    IsExplained n weights (err negative_mass) = 2 ≤ n
    IsExplained n weights (err linalg_error) =
        (2 ≤ n) × (a : T) × (m : T) × (torch.svdvals (weighted_matrix torch p_eps a m) ≡ none)
    IsExplained n weights (err (dangling e)) = ⊥
    IsExplained n weights (err (features e)) = ⊥

    module _ (law : HasShapes torch) where
      -- What an exception of the whole call says of the snapshot.
      abbrev pub IsScored : GraphSnapshot F → Option T → Outcome FragilityError F → Type 0
      IsScored graph weights (ok score) = 1 ≤ length graph.nodes
      IsScored graph weights (err (dangling e)) = adjacency_tensor graph ≡ err e
      IsScored graph weights (err (features no_nodes)) = graph.nodes ≡ []
      IsScored graph weights (err (features (missing_feature id key))) = ⊥
      IsScored graph weights (err (not_square shape)) = ⊥
      IsScored graph weights (err (wrong_features shape)) = ⊥
      IsScored graph weights (err (wrong_weights shape)) =
          IsExplained (length graph.nodes) weights (err (wrong_weights shape))
      IsScored graph weights (err negative_mass) =
          IsExplained (length graph.nodes) weights (err negative_mass)
      IsScored graph weights (err linalg_error) =
          IsExplained (length graph.nodes) weights (err linalg_error)

      module _ (is_finite : F → Bool) (to_float32 : F → F) where
        -- No feature is missing.
        abbrev IsWhole : Outcome FeatureError (List (List F) × List Warning) → Type 0
        IsWhole (ok p) = Unit
        IsWhole (err no_nodes) = Unit
        IsWhole (err (missing_feature id key)) = ⊥
