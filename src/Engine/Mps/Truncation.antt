-- ===== src/Engine/Mps/Truncation.antt =====
-- engine/mps/truncation.py. A matrix is its rows. The decomposition, the sums and the binary search
-- are torch's, and parameters; the tolerance is an argument, as in the code.
pub mod Kept
pub mod Smallest
use ai_quantum.Common.{
  ℕ, ◌+◌, ltb, ◌==◌, Bool, true, false, ◌&&◌, not, if◌then◌else◌, List, [], ◌∷◌, map, length, take,
  min, max, Outcome, ok, err,
}
use ai_quantum.Common.Int.{ℤ, pos, pos_part, ltb_ℤ}
use ai_quantum.Common.Float.{Float, is_zero}

-- The two `ValueError`s.
pub data ValueError : Type 0 where
  bad_rank : ℤ → ValueError
  bad_energy : ValueError

-- `torch.linalg.svd(matrix, full_matrices=False)`.
pub record Factors (F : Type 0) : Type 0 where
  pub u : List (List F)
  pub s : List F
  pub vh : List (List F)

-- What torch provides: `sum`, `cumsum`, `searchsorted` and the conversion to the spectrum's dtype.
pub record Torch (F : Type 0) : Type 0 where
  pub sum : List F → F
  pub cumsum : List F → List F
  pub searchsorted : List F → F → ℕ
  pub to_dtype : F → F

module _ {F : Type 0} ⦃f : Float F⦄ where
  -- `(s > tol).sum()`.
  unfoldable pub count_above : F → List F → ℕ
  count_above tol [] = 0
  count_above tol (x ∷ xs) = (if f.lt tol x then 1 else 0) + count_above tol xs

  -- `numerical_rank`, of the singular values.
  unfoldable pub numerical_rank : {M : Type 0} → (M → List F) → M → F → ℕ
  unfolding count_above
  numerical_rank svdvals matrix tol = count_above tol (svdvals matrix)

  -- The three slices.
  abbrev pub slices : ℕ → Factors F → Factors F
  slices effective d = record {
    u = map (take effective) d.u;
    s = take effective d.s;
    vh = take effective d.vh;
  }

  -- Whether the warning is issued, and the factors that are kept.
  unfoldable pub truncated : ℕ → F → Factors F → Bool × Factors F
  unfolding count_above
  truncated rank tol d =
      let k = length d.s in
      let num_rank = count_above tol d.s in
      if ltb num_rank k
      then (true, slices (min (min rank k) (max 1 num_rank)) d)
      else (false, slices (min rank k) d)

  unfoldable pub truncated_svd :
      {M : Type 0} → (M → Factors F) → M → ℤ → F → Outcome ValueError (Bool × Factors F)
  unfolding truncated
  truncated_svd svd matrix rank tol =
      if ltb_ℤ rank (pos 1)
      then err (bad_rank rank)
      else ok (truncated (pos_part rank) tol (svd matrix))

  -- `sv * sv`.
  abbrev pub squares : List F → List F
  squares = map (λ x. f.mul x x)

  -- `torch.cumsum(sq, dim=0) / total`.
  abbrev pub fractions : Torch F → List F → List F
  fractions torch sv = let sq = squares sv in map (λ c. f.div c (torch.sum sq)) (torch.cumsum sq)

  unfoldable pub rank_of : Torch F → List F → F → ℕ
  rank_of torch sv energy =
      if is_zero (torch.sum (squares sv))
      then 1
      else min (torch.searchsorted (fractions torch sv) (torch.to_dtype energy) + 1) (length sv)

  unfoldable pub auto_rank : {M : Type 0} → Torch F → (M → List F) → M → F → Outcome ValueError ℕ
  unfolding rank_of
  auto_rank torch svdvals matrix energy =
      if not (f.lt (f.of_ℕ 0) energy && f.le energy (f.of_ℕ 1))
      then err bad_energy
      else ok (rank_of torch (svdvals matrix) energy)
