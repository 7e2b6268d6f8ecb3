-- ===== src/Engine/Features/Tests.antt =====
-- A node with a feature that is not finite.
use ai_quantum.Common.{◌≡◌, refl, Bool, true, false, [], ◌∷◌, none, some, ok, err}
use ai_quantum.Common.Int.{ℤ, pos, negsuc}
use ai_quantum.Common.Text.{codes, text_eq}
use ai_quantum.Common.Dict.{get}
use ai_quantum.Common.Float.Exact.{sixteenths}
use ai_quantum.Engine.Features.{FeatureNode, feature_tensor, missing_feature}
use ai_quantum.Engine.Features.Shape.{IsTensor, feature_tensor-IsTensor}

-- The numbers below zero stand for what is not finite.
abbrev is_finite : ℤ → Bool
is_finite (pos n) = true
is_finite (negsuc n) = false

abbrev exact : ℤ → ℤ
exact x = x

abbrev node : FeatureNode ℤ
node = record {
  id = some (codes "pool");
  features =
      (codes "connectivity", pos 16)
      ∷ (codes "tvl_usd", pos 32)
      ∷ (codes "volume_24h_usd", negsuc 0)
      ∷ (codes "price_usd", pos 48)
      ∷ (codes "volatility", pos 0)
      ∷ [];
}

replaces :
    feature_tensor is_finite exact (node ∷ [])
    ≡ ok (
      (pos 32 ∷ pos 0 ∷ pos 48 ∷ pos 0 ∷ pos 16 ∷ []) ∷ [],
      (some (codes "pool"), codes "volume_24h_usd") ∷ [],
    )
unfolding feature_tensor get text_eq
replaces = refl

misses :
    feature_tensor is_finite exact (record { id = none; features = [] } ∷ [])
    ≡ err (missing_feature none (codes "tvl_usd"))
unfolding feature_tensor get
misses = refl

feature_tensor-IsTensor_example :
    IsTensor is_finite exact (node ∷ []) (feature_tensor is_finite exact (node ∷ []))
feature_tensor-IsTensor_example = feature_tensor-IsTensor is_finite exact (node ∷ [])
