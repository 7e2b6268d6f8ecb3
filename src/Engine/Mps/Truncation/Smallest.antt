-- ===== src/Engine/Mps/Truncation/Smallest.antt =====
-- What `auto_rank` chooses.
use ai_quantum.Common.{
  ℕ, ◌+◌, ◌-◌, ◌⊎◌, Bool, get_elem?-lt, get_elem?-cases, ◌≤◌, ◌<◌, min, ◌≡◌, refl, ◌∙◌, Bool-cases,
  true, false, ◌&&◌, inl, inr, List, [], ◌∷◌, length, length-map, get_elem?, some, Outcome, ok, err,
  arith,
}
use ai_quantum.Common.Float.{Float, is_zero}
use ai_quantum.Engine.Mps.Truncation.{ValueError, Torch, squares, fractions, rank_of, auto_rank}

module _ {F : Type 0} ⦃f : Float F⦄ where
  -- None is below the one in front of it.
  abbrev pub IsRising : List F → Type 0
  IsRising [] = Unit
  IsRising (x ∷ []) = Unit
  IsRising (x ∷ y ∷ xs) = (f.le x y ≡ true) × IsRising (y ∷ xs)

-- What torch documents: in a list that rises, `searchsorted` gives the index that splits it
-- at the value.
pub record IsTorch {F : Type 0} ⦃f : Float F⦄ (torch : Torch F) : Type 0 where
  pub within : (xs : List F) (v : F) → IsRising xs → torch.searchsorted xs v ≤ length xs
  pub before :
      (xs : List F) (v : F)
      → IsRising xs
      → (i : ℕ) (x : F) → i < torch.searchsorted xs v
      → get_elem? xs i ≡ some x
      → f.lt x v ≡ true
  pub at_split :
      (xs : List F) (v : F)
      → IsRising xs
      → (x : F) → get_elem? xs (torch.searchsorted xs v) ≡ some x
      → f.lt x v ≡ false
  pub length-cumsum : (xs : List F) → length (torch.cumsum xs) ≡ length xs

module _ {F : Type 0} ⦃f : Float F⦄ (torch : Torch F) where
  -- Rank `j + 1` retains too little.
  abbrev pub FallsShort : List F → F → ℕ → Type 0
  FallsShort sv energy j =
      (x : F) → get_elem? (fractions torch sv) j ≡ some x → f.lt x (torch.to_dtype energy) ≡ true

  abbrev pub Reaches : List F → F → ℕ → Type 0
  Reaches sv energy j =
      (x : F) × (get_elem? (fractions torch sv) j ≡ some x)
      × (f.lt x (torch.to_dtype energy) ≡ false)

  -- No smaller rank retains enough; this one does, or it is full and no rank does.
  pub record IsLeast (sv : List F) (energy : F) (rank : ℕ) : Type 0 where
    pub positive : 1 ≤ rank
    pub full : rank ≤ length sv
    pub smaller : (j : ℕ) → j + 1 < rank → FallsShort sv energy j
    pub enough :
        Reaches sv energy (rank - 1)
        ⊎ ((rank ≡ length sv) × ((j : ℕ) → j < length sv → FallsShort sv energy j))

  abbrev pub in_range : F → Bool
  in_range energy = f.lt (f.of_ℕ 0) energy && f.le energy (f.of_ℕ 1)

  abbrev pub no_energy : List F → Bool
  no_energy sv = is_zero (torch.sum (squares sv))

  -- What is promised of the answer.
  abbrev pub IsChosen : List F → F → Outcome ValueError ℕ → Type 0
  IsChosen sv energy (err e) = in_range energy ≡ false
  IsChosen sv energy (ok rank) =
      (in_range energy ≡ true)
      × (((no_energy sv ≡ true) × (rank ≡ 1)) ⊎ ((no_energy sv ≡ false) × IsLeast sv energy rank))

  module _ (law : IsTorch torch) (sv : List F) (energy : F) where
    length-fractions : length (fractions torch sv) ≡ length sv
    length-fractions =
        length-map (torch.cumsum (squares sv)) (λ c. f.div c (torch.sum (squares sv)))
        ∙ law.length-cumsum (squares sv)
        ∙ length-map sv (λ x. f.mul x x)

    split : ℕ
    split = torch.searchsorted (fractions torch sv) (torch.to_dtype energy)

    module _ (rising : IsRising (fractions torch sv)) (some_value : 1 ≤ length sv) where
      split-enough :
          Reaches sv energy (min (split + 1) (length sv) - 1)
          ⊎ ((min (split + 1) (length sv) ≡ length sv)
              × ((j : ℕ) → j < length sv → FallsShort sv energy j))
      unfolding split
      split-enough =
          let index = torch.searchsorted (fractions torch sv) (torch.to_dtype energy) in
          elim (get_elem?-cases (fractions torch sv) index) [
            | inl (x, found) ↦
                let inside = get_elem?-lt (fractions torch sv) index x found in
                let e : min (index + 1) (length sv) - 1 ≡ index =
                  omega (arith, inside, length-fractions) in
                inl (
                  x,
                  rw e found,
                  law.at_split (fractions torch sv) (torch.to_dtype energy) rising x found,
                )
            | inr (past) ↦ inr (
              omega (arith, past, length-fractions),
              λ j h x g.
                  law.before (fractions torch sv) (torch.to_dtype energy) rising j x
                    (omega (arith, past, length-fractions, h)) g,
            )
          ]

      split-IsLeast : IsLeast sv energy (min (split + 1) (length sv))
      unfolding split
      split-IsLeast = record {
        positive = omega arith;
        full = omega arith;
        smaller = λ j h x g.
            law.before (fractions torch sv) (torch.to_dtype energy) rising j x (omega (arith, h)) g;
        enough = split-enough;
      }

      rank_of-IsChosen : in_range energy ≡ true → IsChosen sv energy (ok (rank_of torch sv energy))
      unfolding rank_of split
      rank_of-IsChosen legal = elim (Bool-cases (no_energy sv)) [
        | inl zero_total ↦ rw zero_total (legal, inl (refl, refl))
        | inr positive_total ↦ rw positive_total (legal, inr (refl, split-IsLeast))
      ]

  -- For a matrix with at least one singular value whose retained fractions rise with the
  -- rank: an energy outside (0, 1] raises; a spectrum without energy gives rank 1; otherwise the
  -- rank is between 1 and the number of singular values, every smaller rank retains less than the
  -- energy asked for, and this one retains it, unless it is full and, by rounding, no rank does.
  pub auto_rank-IsChosen :
      {M : Type 0} (law : IsTorch torch) (svdvals : M → List F) (matrix : M) (energy : F)
      → 1 ≤ length (svdvals matrix)
      → IsRising (fractions torch (svdvals matrix))
      → IsChosen (svdvals matrix) energy (auto_rank torch svdvals matrix energy)
  unfolding auto_rank
  auto_rank-IsChosen law svdvals matrix energy nonempty rising =
      elim (Bool-cases (in_range energy)) [
        | inl legal ↦ rw legal (rank_of-IsChosen law (svdvals matrix) energy rising nonempty legal)
        | inr illegal ↦ rw illegal illegal
      ]
