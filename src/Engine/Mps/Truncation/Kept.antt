-- ===== src/Engine/Mps/Truncation/Kept.antt =====
-- Which singular values a truncation keeps.
use ai_quantum.Common.{
  ℕ, zero, suc, ◌≤◌, ltb, min, max, ◌≡◌, refl, ap, sym, ◌∙◌, Bool, Bool-cases, true, false,
  if◌then◌else◌, inl, inr, List, [], ◌∷◌, map, length, take, length-take, ok, err, arith, Outcome,
  take-take, take_one_more, take-nil, take-min,
}
use ai_quantum.Common.Int.{ℤ, pos, pos_part, negsuc, ltb_ℤ}
use ai_quantum.Common.Float.{Float}
use ai_quantum.Engine.Mps.Truncation.{
  ValueError, bad_rank, Factors, count_above, slices, truncated, truncated_svd,
}

-- A law of the order of floats, NaN included.
pub record IsOrdered (F : Type 0) ⦃f : Float F⦄ : Type 0 where
  pub lt_le_trans : (a b c : F) → f.lt a b ≡ true → f.le b c ≡ true → f.lt a c ≡ true

module _ {F : Type 0} ⦃f : Float F⦄ where
  -- As torch returns them: each is at least the next.
  abbrev pub IsFalling : List F → Type 0
  IsFalling [] = Unit
  IsFalling (x ∷ []) = Unit
  IsFalling (x ∷ y ∷ xs) = (f.le y x ≡ true) × IsFalling (y ∷ xs)

  -- The values above the tolerance.
  abbrev pub above : F → List F → List F
  above tol [] = []
  above tol (x ∷ xs) = if f.lt tol x then x ∷ above tol xs else above tol xs

  -- The leading ones of them, or the leading value of all where there are none.
  abbrev pub leading : ℕ → List F → List F → List F
  leading rank [] s = take 1 s
  leading rank (x ∷ xs) s = take rank (x ∷ xs)

  -- Whether some value is not above the tolerance.
  abbrev pub is_deficient : F → List F → Bool
  is_deficient tol [] = false
  is_deficient tol (x ∷ xs) = if f.lt tol x then is_deficient tol xs else true

  module _ (law : IsOrdered F) (tol : F) where
    falling_none :
        (x : F) (xs : List F) → IsFalling (x ∷ xs) → f.lt tol x ≡ false → count_above tol xs ≡ 0
    unfolding count_above
    falling_none x [] h k = refl
    falling_none x (y ∷ ys) h k = elim (Bool-cases (f.lt tol y)) [
      | inl over ↦
          absurd (let bad : true ≡ false = sym (law.lt_le_trans tol y x over h.0) ∙ k in cc bad)
      | inr under ↦ rw under (omega (arith, falling_none y ys h.1 under))
    ]

    IsFalling-tail : (x : F) (xs : List F) → IsFalling (x ∷ xs) → IsFalling xs
    IsFalling-tail x [] h = tt
    IsFalling-tail x (y ∷ ys) h = h.1

    -- Those above the tolerance stand in front.
    above-take : (xs : List F) → IsFalling xs → above tol xs ≡ take (count_above tol xs) xs
    unfolding count_above
    above-take [] h = refl
    above-take (x ∷ xs) h = elim (Bool-cases (f.lt tol x)) [
      | inl over ↦
          rw (over, above-take xs (IsFalling-tail x xs h)) (take_one_more (count_above tol xs) x xs)
      | inr under ↦
          let none_left = falling_none x xs h under in
          rw (under, above-take xs (IsFalling-tail x xs h), none_left) refl
    ]

  count_above-le : (tol : F) (xs : List F) → count_above tol xs ≤ length xs
  unfolding count_above
  count_above-le tol [] = omega arith
  count_above-le tol (x ∷ xs) = ground (arith, count_above-le tol xs)

  is_deficient-count :
      (tol : F) (xs : List F) → is_deficient tol xs ≡ ltb (count_above tol xs) (length xs)
  unfolding count_above
  is_deficient-count tol [] = refl
  is_deficient-count tol (x ∷ xs) = elim (Bool-cases (f.lt tol x)) [
    | inl over ↦ rw over (ground (arith, is_deficient-count tol xs))
    | inr under ↦ rw under (ground (arith, count_above-le tol xs))
  ]

  leading-take :
      (rank n : ℕ) (s : List F)
      → leading (suc rank) (take n s) s ≡ take (min (suc rank) (max 1 n)) s
  leading-take rank zero s =
      let e : 1 ≡ min (suc rank) (max 1 0) = omega arith in ap (λ (k : ℕ). take k s) e
  leading-take rank (suc n) [] = sym (take-nil (min (suc rank) (max 1 (suc n))))
  leading-take rank (suc n) (x ∷ xs) =
      let e : min (suc rank) (suc n) ≡ min (suc rank) (max 1 (suc n)) = omega arith in
      take-take (suc rank) (suc n) (x ∷ xs) ∙ ap (λ (k : ℕ). take k (x ∷ xs)) e

  -- The values a truncation to `rank` keeps.
  abbrev pub kept : ℕ → F → List F → List F
  kept rank tol s = leading rank (above tol s) s

  effective : ℕ → F → List F → ℕ
  effective rank tol s = min (min rank (max 1 (count_above tol s))) (length s)

  kept-take :
      (law : IsOrdered F) (rank : ℕ) (tol : F) (s : List F)
      → IsFalling s
      → kept (suc rank) tol s ≡ take (effective (suc rank) tol s) s
  unfolding effective
  kept-take law rank tol s h = rw (above-take law tol s h) (
      leading-take rank (count_above tol s) s
      ∙ take-min (min (suc rank) (max 1 (count_above tol s))) s)

  -- What is promised for a rank: an error, or the values kept, with the columns and rows for them.
  abbrev pub IsTruncation : ℤ → F → Factors F → Outcome ValueError (Bool × Factors F) → Type 0
  IsTruncation rank tol d (err e) = (ltb_ℤ rank (pos 1) ≡ true) × (e ≡ bad_rank rank)
  IsTruncation rank tol d (ok (warns, out)) =
      (ltb_ℤ rank (pos 1) ≡ false)
      × (warns ≡ is_deficient tol d.s)
      × (out.s ≡ kept (pos_part rank) tol d.s)
      × (out.u ≡ map (take (length (kept (pos_part rank) tol d.s))) d.u)
      × (out.vh ≡ take (length (kept (pos_part rank) tol d.s)) d.vh)

  module _ (law : IsOrdered F) (rank : ℕ) (tol : F) (d : Factors F) (falling : IsFalling d.s) where
    length-kept : length (kept (suc rank) tol d.s) ≡ effective (suc rank) tol d.s
    unfolding effective
    length-kept =
        ap length (kept-take law rank tol d.s falling)
        ∙ length-take (effective (suc rank) tol d.s) d.s
        ∙ omega arith

    slices-IsTruncation :
        (warns : Bool)
        → warns ≡ is_deficient tol d.s
        → (e : ℕ) → e ≡ effective (suc rank) tol d.s
        → IsTruncation (pos (suc rank)) tol d (ok (warns, slices e d))
    slices-IsTruncation warns w e h =
        let n : e ≡ length (kept (suc rank) tol d.s) = h ∙ sym length-kept in
        (
          ground arith,
          w,
          ap (λ (k : ℕ). take k d.s) h ∙ sym (kept-take law rank tol d.s falling),
          ap (λ (k : ℕ). map (take k) d.u) n,
          ap (λ (k : ℕ). take k d.vh) n,
        )

    truncated-IsTruncation : IsTruncation (pos (suc rank)) tol d (ok (truncated (suc rank) tol d))
    unfolding truncated effective
    truncated-IsTruncation = elim (Bool-cases (ltb (count_above tol d.s) (length d.s))) [
      | inl less ↦ rw less (
          slices-IsTruncation true (sym (is_deficient-count tol d.s ∙ less)) _
            (ground (arith, less)))
      | inr all ↦ rw all (
          slices-IsTruncation false (sym (is_deficient-count tol d.s ∙ all)) _
            (ground (arith, all, count_above-le tol d.s)))
    ]

  -- Where the decomposition's singular values fall, the truncation to a rank below one raises and
  -- any other keeps, of the values above the tolerance, the leading ones up to the rank, or
  -- the first value of all where none is above it, with as many columns of U and rows of Vh; the
  -- warning is issued exactly if some value is not above the tolerance.
  pub truncated_svd-IsTruncation :
      {M : Type 0} (law : IsOrdered F) (svd : M → Factors F) (matrix : M) (rank : ℤ) (tol : F)
      → IsFalling (svd matrix).s
      → IsTruncation rank tol (svd matrix) (truncated_svd svd matrix rank tol)
  unfolding truncated_svd
  truncated_svd-IsTruncation law svd matrix (pos zero) tol falling = (ground arith, refl)
  truncated_svd-IsTruncation law svd matrix (pos (suc rank)) tol falling =
      let legal : ltb_ℤ (pos (suc rank)) (pos 1) ≡ false = ground arith in
      rw legal (truncated-IsTruncation law rank tol (svd matrix) falling)
  truncated_svd-IsTruncation law svd matrix (negsuc n) tol falling =
      let below : ltb_ℤ (negsuc n) (pos 1) ≡ true = ground arith in rw below (below, refl)
