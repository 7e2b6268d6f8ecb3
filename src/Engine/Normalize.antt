-- ===== src/Engine/Normalize.antt =====
-- engine/tensor/normalize.py. A tensor has two dimensions and is already converted to float32; the
-- column statistics are torch's, and parameters.
pub mod Columns
mod Tests
use ai_quantum.Common.{
  ℕ, ◌==◌, Option, none, some, length, replicate, ◌&&◌, ◌||◌, Bool, true, false, if◌then◌else◌,
  List, [], ◌∷◌, map, Outcome, ok, err,
}
use ai_quantum.Common.Text.{Text, codes, text_eq}
use ai_quantum.Common.Float.{Float, is_zero}

-- `x` of shape `(N, F)`: its `F`, and its rows, which have as many items.
pub record Tensor (F : Type 0) : Type 0 where
  pub columns : ℕ
  pub rows : List (List F)

-- The `ValueError`, with the method that is unknown, and what torch raises: for two shapes that it
-- cannot broadcast, and for the least and the greatest of no rows.
pub data NormalizeError : Type 0 where
  unknown_method : Text → NormalizeError
  shape_error : ℕ → ℕ → NormalizeError
  no_rows : NormalizeError

-- The fitted parameters, a column each.
pub record NormalizationState (F : Type 0) : Type 0 where
  pub method : Text
  pub offset : List F
  pub scale : List F
  pub zero_mask : List Bool

-- `x.min(dim=0).values` and the other three; the first two raise where there is no row.
pub record Statistics (F : Type 0) : Type 0 where
  pub column_min : Tensor F → Option (List F)
  pub column_max : Tensor F → Option (List F)
  pub column_mean : Tensor F → List F
  pub column_std : Tensor F → List F

-- The width of two broadcast rows, of which one may have a single item.
unfoldable pub broadcast : ℕ → ℕ → Option ℕ
broadcast m n =
    if m == n then some m else if m == 1 then some n else if n == 1 then some m else none

-- A row of a single item is repeated to the width.
abbrev pub stretch {ℓ} : {A : Type ℓ} → ℕ → List A → List A
stretch width [] = []
stretch width (x ∷ []) = replicate width x
stretch width (x ∷ y ∷ row) = x ∷ y ∷ row

-- Two vectors of one length, item by item.
abbrev pub zip_with {ℓ κ μ} :
    {A : Type ℓ} {B : Type κ} {C : Type μ} → (A → B → C) → List A → List B → List C
zip_with g [] ys = []
zip_with g (x ∷ xs) [] = []
zip_with g (x ∷ xs) (y ∷ ys) = g x y ∷ zip_with g xs ys

module _ {F : Type 0} ⦃f : Float F⦄ where
  -- `torch.where(mask, 0, x)`.
  abbrev pub zero_where : Bool → F → F
  zero_where mask x = if mask then f.of_ℕ 0 else x

  -- One row of `apply`, broadcast to the width.
  unfoldable pub apply_row : ℕ → NormalizationState F → List F → List F
  apply_row width state row = zip_with zero_where (stretch width state.zero_mask) (
      zip_with f.div (zip_with f.sub (stretch width row) (stretch width state.offset))
        (stretch width state.scale))

  abbrev pub apply_at :
      NormalizationState F → Tensor F → Option ℕ → Outcome NormalizeError (Tensor F)
  apply_at state tensor none = err (shape_error tensor.columns (length state.offset))
  apply_at state tensor (some width) =
      ok (record { columns = width; rows = map (apply_row width state) tensor.rows })

  -- `NormalizationState.apply`.
  unfoldable pub apply : NormalizationState F → Tensor F → Outcome NormalizeError (Tensor F)
  unfolding apply_row broadcast
  apply state tensor = apply_at state tensor (broadcast tensor.columns (length state.offset))

  abbrev pub one_where : Bool → F → F
  one_where mask x = if mask then f.of_ℕ 1 else x

  abbrev pub state_of : Text → List F → List F → NormalizationState F
  state_of method offset scale = record {
    method = method;
    offset = offset;
    scale = zip_with one_where (map is_zero scale) scale;
    zero_mask = map is_zero scale;
  }

  -- The offset and the scale of `"minmax"`.
  abbrev pub spread : Option (List F) → Option (List F) → Option (List F × List F)
  spread none hi = none
  spread (some lo) none = none
  spread (some lo) (some hi) = some (lo, zip_with f.sub hi lo)

  -- The offset and the scale of a method.
  abbrev pub fitted : Statistics F → Tensor F → Text → Option (List F × List F)
  fitted stats x method =
      if text_eq method (codes "minmax")
      then spread (stats.column_min x) (stats.column_max x)
      else some (stats.column_mean x, stats.column_std x)

  abbrev pub with_state :
      NormalizationState F
      → Outcome NormalizeError (Tensor F)
      → Outcome NormalizeError (Tensor F × NormalizationState F)
  with_state state (err e) = err e
  with_state state (ok out) = ok (out, state)

  abbrev pub with_fitted :
      Tensor F
      → Text
      → Option (List F × List F)
      → Outcome NormalizeError (Tensor F × NormalizationState F)
  with_fitted x method none = err no_rows
  with_fitted x method (some (offset, scale)) =
      let state = state_of method offset scale in with_state state (apply state x)

  unfoldable pub normalize :
      Statistics F → Tensor F → Text → Outcome NormalizeError (Tensor F × NormalizationState F)
  unfolding apply
  normalize stats x method =
      if text_eq method (codes "minmax") || text_eq method (codes "zscore")
      then with_fitted x method (fitted stats x method)
      else err (unknown_method method)
