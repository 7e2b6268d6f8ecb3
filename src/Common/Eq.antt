-- ===== src/Common/Eq.antt =====
-- Decidable equality as an interface, for the keys of dictionaries and sets.
use mathlib.Core.Path.{◌≡◌, refl}
use mathlib.Core.Logic.{◌↔◌}
use mathlib.Core.Bool.{Bool, true}
use ai_quantum.Common.Text.{Text, text_eq, text_eq_iff}

pub record Eq {ℓ} (K : Type ℓ) : Type ℓ where
  pub are_same : K → K → Bool
  pub are_same_iff : (k l : K) → (are_same k l ≡ true) ↔ (k ≡ l)

module _ {ℓ} {K : Type ℓ} ⦃keys : Eq K⦄ where
  abbrev pub eqb : K → K → Bool
  eqb = keys.are_same

  pub eqb_refl : (k : K) → eqb k k ≡ true
  eqb_refl k = (keys.are_same_iff k k).1 refl

instance abbrev pub text_eq_instance : Eq Text
text_eq_instance = record { are_same = text_eq; are_same_iff = text_eq_iff }
