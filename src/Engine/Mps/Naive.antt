-- ===== src/Engine/Mps/Naive.antt =====
-- engine/mps/naive.py. A tensor and torch's operations on it are an interface; `p_eps` is the bound
-- below which a probability counts as zero.
pub mod Shapes
use ai_quantum.Common.{
  ℕ, ltb, ◌==◌, ◌&&◌, not, Bool, true, false, if◌then◌else◌, List, [], ◌∷◌, map, get_or, length,
  Option, none, some, Outcome, ok, err, ◌>>=◌,
}
use ai_quantum.Common.Text.{codes}
use ai_quantum.Common.Float.{Float, is_zero}
use ai_quantum.Core.Snapshot.{Node, NodeFeatures, GraphSnapshot}
use ai_quantum.Engine.Adjacency.{Dangling, Matrix, adjacency_tensor}
use ai_quantum.Engine.Features.{FeatureNode, FeatureError, Warning, feature_tensor}

-- The `ValueError`s: those of the function, and those of the two builders. `linalg_error` is torch's
-- LinAlgError, of `svdvals` on a matrix that is not finite.
pub data FragilityError : Type 0 where
  not_square : List ℕ → FragilityError
  wrong_features : List ℕ → FragilityError
  wrong_weights : List ℕ → FragilityError
  negative_mass : FragilityError
  linalg_error : FragilityError
  dangling : Dangling → FragilityError
  features : FeatureError → FragilityError

-- What the code calls: `t.shape`, `t.to(float32)`, `torch.ones`, `a @ b`, `bool((t < 0).any())`,
-- `float(t.sum())`, `torch.sqrt`, `t.unsqueeze(1)` and `(0)`, `a * b`, `svdvals`, `a / x`,
-- `t[t > x]`, `torch.log`, `-t`, `math.log`.
pub record Torch (F T : Type 0) : Type 0 where
  pub shape : T → List ℕ
  pub to_float32 : T → T
  pub ones : ℕ → T
  pub matmul : T → T → T
  pub any_negative : T → Bool
  pub sum : T → F
  pub sqrt : T → T
  pub as_column : T → T
  pub as_row : T → T
  pub mul : T → T → T
  pub svdvals : T → Option T
  pub div_by : T → F → T
  pub select_above : T → F → T
  pub log : T → T
  pub neg : T → T
  pub math_log : ℕ → F
  -- `torch.tensor` of a matrix with so many rows and columns, and of rows.
  pub of_matrix : ℕ → Matrix F → T
  pub of_rows : List (List F) → T

-- A node of the snapshot, as the feature builder reads it.
abbrev pub feature_node : {F : Type 0} → Node F → FeatureNode F
feature_node node = record {
  id = some node.id;
  features =
      (codes "tvl_usd", node.features.tvl_usd)
      ∷ (codes "volume_24h_usd", node.features.volume_24h_usd)
      ∷ (codes "price_usd", node.features.price_usd)
      ∷ (codes "volatility", node.features.volatility)
      ∷ (codes "connectivity", node.features.connectivity)
      ∷ [];
}

-- `t.ndim == 2 and t.shape[0] == t.shape[1]`.
unfoldable pub is_square : List ℕ → Bool
is_square (m ∷ n ∷ []) = m == n
is_square _ = false

-- `t.ndim == 2 and t.shape[0] == n`.
unfoldable pub has_rows : ℕ → List ℕ → Bool
has_rows n (m ∷ k ∷ []) = m == n
has_rows n _ = false

-- `t.shape == (n,)`.
unfoldable pub is_vector : ℕ → List ℕ → Bool
is_vector n (m ∷ []) = m == n
is_vector n _ = false

module _ {F T : Type 0} ⦃f : Float F⦄ (torch : Torch F T) (p_eps : F) where
  -- Steps 4 to 6, from the singular values.
  unfoldable pub entropy_of : ℕ → T → F
  entropy_of n sv =
      let s2 = torch.mul sv sv in
      let p = torch.select_above (torch.div_by s2 (torch.sum s2)) p_eps in
      let entropy = torch.sum (torch.neg (torch.mul p (torch.log p))) in
      if is_zero (torch.sum s2) then f.of_ℕ 0 else f.div entropy (torch.math_log n)

  abbrev pub or_linalg_error : Option T → Outcome FragilityError T
  or_linalg_error none = err linalg_error
  or_linalg_error (some sv) = ok sv

  -- The matrix of step 2.
  unfoldable pub weighted_matrix : T → T → T
  weighted_matrix a m =
      let root = torch.sqrt m in torch.mul (torch.mul (torch.as_column root) a) (torch.as_row root)

  -- Steps 2 and 3.
  unfoldable pub spectrum_of : T → T → Outcome FragilityError T
  unfolding weighted_matrix
  spectrum_of a m = or_linalg_error (torch.svdvals (weighted_matrix a m))

  -- Steps 2 to 6.
  unfoldable pub scored : ℕ → T → T → Outcome FragilityError F
  unfolding entropy_of spectrum_of
  scored n a m = do sv ← spectrum_of a m; ok (entropy_of n sv)

  -- The checks of the masses, and what follows them.
  unfoldable pub score_of : ℕ → T → T → Outcome FragilityError F
  unfolding scored
  score_of n a m =
      let score = scored n a m in
      if torch.any_negative m
      then err negative_mass
      else if is_zero (torch.sum m)
      then ok (f.of_ℕ 0)
      else score

  -- The weights, all of which are one where none are given.
  unfoldable pub weights_for : ℕ → Option T → Outcome FragilityError T
  weights_for columns none = ok (torch.ones columns)
  weights_for columns (some given) =
      let w = torch.to_float32 given in
      if is_vector columns (torch.shape w) then ok w else err (wrong_weights (torch.shape w))

  -- From step 1 on.
  unfoldable pub weighted : ℕ → T → T → Option T → Outcome FragilityError F
  unfolding score_of weights_for
  weighted n a x feature_weights = do
    w ← weights_for (get_or (torch.shape x) 1 0) feature_weights
    score_of n a (torch.matmul x w)

  unfoldable pub fragility_raw : T → T → Option T → Outcome FragilityError F
  unfolding weighted is_square has_rows
  fragility_raw adjacency node_features feature_weights =
      let n = get_or (torch.shape adjacency) 0 0 in
      let score =
        weighted n (torch.to_float32 adjacency) (torch.to_float32 node_features) feature_weights in
      if not (is_square (torch.shape adjacency))
      then err (not_square (torch.shape adjacency))
      else if not (has_rows n (torch.shape node_features))
      then err (wrong_features (torch.shape node_features))
      else if ltb n 2
      then ok (f.of_ℕ 0)
      else score

  abbrev pub or_dangling : Outcome Dangling (Matrix F) → Outcome FragilityError (Matrix F)
  or_dangling (err e) = err (dangling e)
  or_dangling (ok m) = ok m

  abbrev pub or_features :
      Outcome FeatureError (List (List F) × List Warning) → Outcome FragilityError (List (List F))
  or_features (err e) = err (features e)
  or_features (ok (rows, warnings)) = ok rows

  -- `fragility_raw_from_graph`.
  unfoldable pub fragility_raw_from_graph :
      (F → Bool) → (F → F) → GraphSnapshot F → Option T → Outcome FragilityError F
  unfolding fragility_raw adjacency_tensor feature_tensor
  fragility_raw_from_graph is_finite to_float32 graph feature_weights = do
    a ← or_dangling (adjacency_tensor graph)
    x ← or_features (feature_tensor is_finite to_float32 (map feature_node graph.nodes))
    fragility_raw (torch.of_matrix (length graph.nodes) a) (torch.of_rows x) feature_weights
