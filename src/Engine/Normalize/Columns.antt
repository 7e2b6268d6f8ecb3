-- ===== src/Engine/Normalize/Columns.antt =====
-- What a normalization does to each column.
use ai_quantum.Common.{
  ℕ, ◌≤◌, ◌∙◌, Option, none, some, length, length-map, ==_refl, arith, ◌≡◌, refl, ap, ap₂, Bool,
  Bool-cases, true, false, ◌||◌, if◌then◌else◌, inl, inr, List, [], ◌∷◌, map, Outcome, ok, err,
}
use ai_quantum.Common.Text.{Text, codes, text_eq}
use ai_quantum.Common.Dict.Keys.{All}
use ai_quantum.Common.Float.{Float, is_zero}
use ai_quantum.Engine.Normalize.{
  Tensor, NormalizeError, unknown_method, shape_error, no_rows, NormalizationState, Statistics,
  zip_with, stretch, broadcast, apply_row, apply, zero_where, one_where, state_of, fitted, spread,
  with_fitted, normalize,
}

abbrev pub is_known : Text → Bool
is_known method = text_eq method (codes "minmax") || text_eq method (codes "zscore")

stretch_same : {A : Type 0} (n : ℕ) (row : List A) → length row ≡ n → stretch n row ≡ row
stretch_same n [] h = refl
stretch_same n (x ∷ []) h = let one : n ≡ 1 = omega (arith, h) in rw one refl
stretch_same n (x ∷ y ∷ row) h = refl

length-zip_with :
    {A B C : Type 0} (g : A → B → C) (n : ℕ) (xs : List A) (ys : List B)
    → length xs ≡ n
    → length ys ≡ n
    → length (zip_with g xs ys) ≡ n
length-zip_with g n [] ys h k = h
length-zip_with g n (x ∷ xs) [] h k = k
length-zip_with g n (x ∷ xs) (y ∷ ys) h k =
    let below = length-zip_with g (length xs) xs ys refl (omega (arith, h, k)) in
    omega (arith, h, below)

module _ {F : Type 0} ⦃f : Float F⦄ where
  -- A cell of a column with this offset and this scale: zero for a constant column.
  abbrev pub cell : F → F → F → F
  cell x offset scale = if is_zero scale then f.of_ℕ 0 else f.div (f.sub x offset) scale

  abbrev pub cells : List F → List F → List F → List F
  cells [] offset scale = []
  cells (x ∷ row) [] scale = []
  cells (x ∷ row) (o ∷ offset) [] = []
  cells (x ∷ row) (o ∷ offset) (s ∷ scale) = cell x o s ∷ cells row offset scale

  zip-cells :
      (offset scale row : List F)
      → zip_with zero_where (map is_zero scale) (
          zip_with f.div (zip_with f.sub row offset) (zip_with one_where (map is_zero scale) scale))
        ≡ cells row offset scale
  zip-cells offset [] [] = refl
  zip-cells [] [] (x ∷ row) = refl
  zip-cells (o ∷ offset) [] (x ∷ row) = refl
  zip-cells offset (s ∷ scale) [] = refl
  zip-cells [] (s ∷ scale) (x ∷ row) = refl
  zip-cells (o ∷ offset) (s ∷ scale) (x ∷ row) = elim (Bool-cases (is_zero s)) [
    | inl constant ↦ rw constant (ap (λ (l : List F). f.of_ℕ 0 ∷ l) (zip-cells offset scale row))
    | inr varied ↦
        rw varied (ap (λ (l : List F). f.div (f.sub x o) s ∷ l) (zip-cells offset scale row))
  ]

  -- The rows of a tensor are as long as it says.
  abbrev pub IsTensor : Tensor F → Type 0
  IsTensor t = All (λ (row : List F). length row ≡ t.columns) t.rows

  module _ (method : Text) (n : ℕ) (offset scale : List F) (o : length offset ≡ n)
      (s : length scale ≡ n) where
    apply_row-cells :
        (row : List F)
        → length row ≡ n
        → apply_row n (state_of method offset scale) row ≡ cells row offset scale
    unfolding apply_row
    apply_row-cells row h =
        let m : length (map is_zero scale) ≡ n = length-map scale is_zero ∙ s in
        rw
          (
            stretch_same n row h,
            stretch_same n offset o,
            stretch_same n (map is_zero scale) m,
            stretch_same n (zip_with one_where (map is_zero scale) scale)
                (length-zip_with one_where n (map is_zero scale) scale m s),
          )
          (zip-cells offset scale row)

    rows-cells :
        (rows : List (List F))
        → All (λ (row : List F). length row ≡ n) rows
        → map (apply_row n (state_of method offset scale)) rows
          ≡ map (λ row. cells row offset scale) rows
    rows-cells [] h = refl
    rows-cells (row ∷ rows) h =
        ap₂ (λ (r : List F) (rs : List (List F)). r ∷ rs) (apply_row-cells row h.0)
          (rows-cells rows h.1)

    apply-cells :
        (t : Tensor F)
        → t.columns ≡ n
        → IsTensor t
        → apply (state_of method offset scale) t
          ≡ ok (record { columns = n; rows = map (λ row. cells row offset scale) t.rows })
    unfolding apply broadcast
    apply-cells t c h =
        rw (c, o, ==_refl n)
          (ap (λ (rs : List (List F)). ok (record { columns = n; rows = rs }))
            (rows-cells t.rows (rw c at h)))

  -- No divisor is zero.
  abbrev pub AreDivisors : List F → Type 0
  AreDivisors = All (λ (s : F). is_zero s ≡ false)

  divisors :
      (scale : List F)
      → is_zero (f.of_ℕ 1) ≡ false
      → AreDivisors (zip_with one_where (map is_zero scale) scale)
  divisors [] one = tt
  divisors (s ∷ scale) one = elim (Bool-cases (is_zero s)) [
    | inl constant ↦ rw constant (one, divisors scale one)
    | inr varied ↦ rw varied (varied, divisors scale one)
  ]

  module _ (stats : Statistics F) where
    -- A statistic is one number for each column, and a tensor with a row has a least and a greatest.
    pub record HasColumns : Type 0 where
      pub some_min :
          (x : Tensor F)
          → 1 ≤ length x.rows
          → (lo : List F) × (stats.column_min x ≡ some lo) × (length lo ≡ x.columns)
      pub some_max :
          (x : Tensor F)
          → 1 ≤ length x.rows
          → (hi : List F) × (stats.column_max x ≡ some hi) × (length hi ≡ x.columns)
      pub mean_columns : (x : Tensor F) → length (stats.column_mean x) ≡ x.columns
      pub std_columns : (x : Tensor F) → length (stats.column_std x) ≡ x.columns

    -- The offset and the scale, by whether the method is `"minmax"`.
    abbrev pub IsFit : Bool → Tensor F → List F → List F → Type 0
    IsFit true x offset scale =
        (stats.column_min x ≡ some offset)
        × (hi : List F) × (stats.column_max x ≡ some hi)
        × (scale ≡ zip_with f.sub hi offset)
    IsFit false x offset scale = (offset ≡ stats.column_mean x) × (scale ≡ stats.column_std x)

    -- What is promised of a call with the tensor `x`, and of the state on any other, `later`.
    abbrev pub IsNormalized :
        Tensor F
        → Text
        → Tensor F
        → Outcome NormalizeError (Tensor F × NormalizationState F)
        → Type 0
    IsNormalized x method later (err (unknown_method m)) = (is_known method ≡ false) × (m ≡ method)
    IsNormalized x method later (err (shape_error m n)) = ⊥
    IsNormalized x method later (err no_rows) = ⊥
    IsNormalized x method later (ok (out, state)) =
        (offset : List F) × (scale : List F) × (is_known method ≡ true)
        × IsFit (text_eq method (codes "minmax")) x offset scale
        × (state.method ≡ method)
        × AreDivisors state.scale
        × (out ≡ record { columns = x.columns; rows = map (λ row. cells row offset scale) x.rows })
        × (apply state later
            ≡ ok (record {
              columns = x.columns;
              rows = map (λ row. cells row offset scale) later.rows;
            }))

    abbrev IsFitted : Bool → Tensor F → Option (List F × List F) → Type 0
    IsFitted minmax x none = ⊥
    IsFitted minmax x (some (offset, scale)) =
        IsFit minmax x offset scale × (length offset ≡ x.columns) × (length scale ≡ x.columns)

    spread-IsFitted :
        (minmax : Bool) (law : HasColumns) (x : Tensor F)
        → 1 ≤ length x.rows
        → IsFitted minmax x (
            if minmax
            then spread (stats.column_min x) (stats.column_max x)
            else some (stats.column_mean x, stats.column_std x))
    spread-IsFitted false law x h = ((refl, refl), law.mean_columns x, law.std_columns x)
    spread-IsFitted true law x h =
        let (lo, l, m) = law.some_min x h in
        let (hi, u, n) = law.some_max x h in
        rw (l, u) ((l, hi, u, refl), m, length-zip_with f.sub x.columns hi lo n m)

    with_fitted-IsNormalized :
        (x : Tensor F) (method : Text) (later : Tensor F) (fit : Option (List F × List F))
        → is_known method ≡ true
        → IsFitted (text_eq method (codes "minmax")) x fit
        → IsTensor x
        → IsTensor later
        → later.columns ≡ x.columns
        → is_zero (f.of_ℕ 1) ≡ false
        → IsNormalized x method later (with_fitted x method fit)
    with_fitted-IsNormalized x method later none known k t u same one = absurd k
    with_fitted-IsNormalized x method later (some (offset, scale)) known (fit, o, s) t u same one =
        rw (apply-cells method x.columns offset scale o s x refl t) (
          offset,
          scale,
          known,
          fit,
          refl,
          divisors scale one,
          refl,
          apply-cells method x.columns offset scale o s later same u,
        )

    -- For a tensor with a row, where one is not zero: an unknown method raises. Otherwise there is no
    -- exception, and each cell of the tensor is its distance from the offset, the least or the mean of
    -- its column, divided by the column's scale, the greatest less the least or the standard
    -- deviation, or zero if the scale is zero; the state that is returned has no divisor that is
    -- zero, and does the same, with the statistics of the tensor it was fitted to, to every later
    -- tensor with as many columns.
    pub normalize-IsNormalized :
        (law : HasColumns) (x : Tensor F) (method : Text) (later : Tensor F)
        → 1 ≤ length x.rows
        → IsTensor x
        → IsTensor later
        → later.columns ≡ x.columns
        → is_zero (f.of_ℕ 1) ≡ false
        → IsNormalized x method later (normalize stats x method)
    unfolding normalize
    normalize-IsNormalized law x method later h t u same one = elim (Bool-cases (is_known method)) [
      | inl known ↦ rw known (
          with_fitted-IsNormalized x method later (fitted stats x method) known
            (spread-IsFitted (text_eq method (codes "minmax")) law x h) t u same one)
      | inr unknown ↦ rw unknown (unknown, refl)
    ]
