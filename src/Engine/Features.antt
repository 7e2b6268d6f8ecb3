-- ===== src/Engine/Features.antt =====
-- `feature_tensor` of engine/tensor/features.py. A tensor is its rows, whose cells torch
-- rounds to float32; a node's id is `none` where the dictionary has none.
pub mod Shape
mod Tests
use ai_quantum.Common.{
  ℕ, Bool, true, false, if◌then◌else◌, List, [], ◌∷◌, ◌++◌, map, Option, none, some, Outcome, ok,
  err,
}
use ai_quantum.Common.Text.{Text, codes}
use ai_quantum.Common.Eq.{text_eq_instance}
use ai_quantum.Common.Dict.{get}
use ai_quantum.Common.Float.{Float}

pub record FeatureNode (F : Type 0) : Type 0 where
  pub id : Option Text
  pub features : List (Text × F)

-- `FEATURE_ORDER`.
abbrev pub feature_order : List Text
feature_order =
    codes "tvl_usd"
    ∷ codes "volume_24h_usd"
    ∷ codes "price_usd"
    ∷ codes "volatility"
    ∷ codes "connectivity"
    ∷ []

-- The two `ValueError`s.
pub data FeatureError : Type 0 where
  no_nodes : FeatureError
  missing_feature : Option Text → Text → FeatureError

-- A warning: the node and the feature that was replaced.
abbrev pub Warning : Type 0
Warning = Option Text × Text

module _ {F : Type 0} ⦃f : Float F⦄ (is_finite : F → Bool) where
  abbrev pub Row : Type 0
  Row = Outcome FeatureError (List F × List Warning)

  -- `0.0` in place of a NaN or an infinity.
  abbrev pub sanitized : F → F
  sanitized value = if is_finite value then value else f.of_ℕ 0

  abbrev pub warned : Option Text → Text → F → List Warning
  warned node_id key value = if is_finite value then [] else (node_id, key) ∷ []

  abbrev pub cons_cell : Option Text → Text → Option F → Row → Row
  cons_cell node_id key none rest = err (missing_feature node_id key)
  cons_cell node_id key (some value) (err e) = err e
  cons_cell node_id key (some value) (ok (row, ws)) =
      ok (sanitized value ∷ row, warned node_id key value ++ ws)

  -- The inner loop.
  unfoldable pub row_of : Option Text → List (Text × F) → List Text → Row
  row_of node_id features [] = ok ([], [])
  row_of node_id features (key ∷ keys) =
      cons_cell node_id key (get key features) (row_of node_id features keys)

  abbrev pub Table : Type 0
  Table = Outcome FeatureError (List (List F) × List Warning)

  abbrev pub cons_row : Row → Table → Table
  cons_row (err e) rest = err e
  cons_row (ok (row, ws)) (err e) = err e
  cons_row (ok (row, ws)) (ok (rows, ws')) = ok (row ∷ rows, ws ++ ws')

  unfoldable pub rows_of : List (FeatureNode F) → Table
  unfolding row_of
  rows_of [] = ok ([], [])
  rows_of (n ∷ ns) = cons_row (row_of n.id n.features feature_order) (rows_of ns)

  -- `torch.tensor(rows, dtype=torch.float32)`.
  abbrev pub rounded : (F → F) → Table → Table
  rounded to_float32 (err e) = err e
  rounded to_float32 (ok (rows, ws)) = ok (map (map to_float32) rows, ws)

  unfoldable pub feature_tensor : (F → F) → List (FeatureNode F) → Table
  unfolding rows_of
  feature_tensor to_float32 [] = err no_nodes
  feature_tensor to_float32 (n ∷ ns) = rounded to_float32 (rows_of (n ∷ ns))
