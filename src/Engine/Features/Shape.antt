-- ===== src/Engine/Features/Shape.antt =====
-- The shape and the cells of a feature tensor.
use ai_quantum.Common.{
  ℕ, ◌≡◌, refl, ap, ◌∙◌, inl, inr, ◌⊎◌, Bool, true, false, Bool-cases, List, [], ◌∷◌, length,
  length-map, map, Option, none, some, ok, err, arith,
}
use ai_quantum.Common.Text.{Text}
use ai_quantum.Common.Eq.{text_eq_instance}
use ai_quantum.Common.Dict.{get}
use ai_quantum.Common.Dict.Keys.{All}
use ai_quantum.Common.Float.{Float}
use ai_quantum.Engine.Features.{
  FeatureNode, feature_order, no_nodes, missing_feature, Row, Table, sanitized, cons_cell, row_of,
  cons_row, rows_of, rounded, feature_tensor,
}

module _ {F : Type 0} ⦃f : Float F⦄ (is_finite : F → Bool) where
  -- Where a cell holds what `g` makes of it: a finite feature as it is, and zero for any other.
  abbrev pub IsCell : (F → F) → F → F → Type 0
  IsCell g value cell =
      ((is_finite value ≡ true) × (cell ≡ g value))
      ⊎ ((is_finite value ≡ false) × (cell ≡ g (f.of_ℕ 0)))

  -- The row has one cell for each key, in order.
  abbrev pub IsRow : (F → F) → List (Text × F) → List Text → List F → Type 0
  IsRow g features [] [] = Unit
  IsRow g features [] (c ∷ cs) = ⊥
  IsRow g features (k ∷ ks) [] = ⊥
  IsRow g features (k ∷ ks) (c ∷ cs) =
      ((value : F) × (get k features ≡ some value) × IsCell g value c) × IsRow g features ks cs

  -- The tensor has one row for each node, in order.
  abbrev pub AreRows : (F → F) → List (FeatureNode F) → List (List F) → Type 0
  AreRows g [] [] = Unit
  AreRows g [] (r ∷ rs) = ⊥
  AreRows g (n ∷ ns) [] = ⊥
  AreRows g (n ∷ ns) (r ∷ rs) = IsRow g n.features feature_order r × AreRows g ns rs

  -- A node of the list lacks the feature.
  abbrev pub IsMissing : List (FeatureNode F) → Option Text → Text → Type 0
  IsMissing [] id key = ⊥
  IsMissing (n ∷ ns) id key = ((n.id ≡ id) × (get key n.features ≡ none)) ⊎ IsMissing ns id key

  -- `N` rows of five cells.
  abbrev pub HasShape : ℕ → List (List F) → Type 0
  HasShape n rows = (length rows ≡ n) × All (λ (r : List F). length r ≡ 5) rows

  abbrev pub IsTensor : (F → F) → List (FeatureNode F) → Table is_finite → Type 0
  IsTensor g nodes (ok (rows, ws)) = HasShape (length nodes) rows × AreRows g nodes rows
  IsTensor g nodes (err no_nodes) = nodes ≡ []
  IsTensor g nodes (err (missing_feature id key)) = IsMissing nodes id key

  abbrev plain : F → F
  plain x = x

  abbrev IsRowOf : Option Text → List (Text × F) → List Text → Row is_finite → Type 0
  IsRowOf id features keys (ok (row, ws)) = IsRow plain features keys row
  IsRowOf id features keys (err no_nodes) = ⊥
  IsRowOf id features keys (err (missing_feature i key)) = (id ≡ i) × (get key features ≡ none)

  IsCell-sanitized : (value : F) → IsCell plain value (sanitized is_finite value)
  IsCell-sanitized value = elim (Bool-cases (is_finite value)) [
    | inl fine ↦ inl (fine, rw fine refl)
    | inr odd ↦ inr (odd, rw odd refl)
  ]

  IsRowOf-cons_cell :
      (id : Option Text) (features : List (Text × F)) (key : Text) (keys : List Text)
      (rest : Row is_finite) (o : Option F)
      → get key features ≡ o
      → IsRowOf id features keys rest
      → IsRowOf id features (key ∷ keys) (cons_cell is_finite id key o rest)
  IsRowOf-cons_cell id features key keys rest none g h = (refl, g)
  IsRowOf-cons_cell id features key keys (err no_nodes) (some v) g h = h
  IsRowOf-cons_cell id features key keys (err (missing_feature i k)) (some v) g h = h
  IsRowOf-cons_cell id features key keys (ok (row, ws)) (some v) g h =
      ((v, g, IsCell-sanitized v), h)

  IsRowOf-row_of :
      (id : Option Text) (features : List (Text × F)) (keys : List Text)
      → IsRowOf id features keys (row_of is_finite id features keys)
  unfolding row_of
  IsRowOf-row_of id features [] = tt
  IsRowOf-row_of id features (key ∷ keys) =
      IsRowOf-cons_cell id features key keys (row_of is_finite id features keys) (get key features)
        refl (IsRowOf-row_of id features keys)

  abbrev IsTableOf : List (FeatureNode F) → Table is_finite → Type 0
  IsTableOf nodes (ok (rows, ws)) = AreRows plain nodes rows
  IsTableOf nodes (err no_nodes) = ⊥
  IsTableOf nodes (err (missing_feature id key)) = IsMissing nodes id key

  IsTableOf-cons_row :
      (n : FeatureNode F) (ns : List (FeatureNode F)) (row : Row is_finite) (rest : Table is_finite)
      → IsRowOf n.id n.features feature_order row
      → IsTableOf ns rest
      → IsTableOf (n ∷ ns) (cons_row is_finite row rest)
  IsTableOf-cons_row n ns (err no_nodes) rest h k = h
  IsTableOf-cons_row n ns (err (missing_feature i key)) rest h k = inl h
  IsTableOf-cons_row n ns (ok (row, ws)) (err no_nodes) h k = k
  IsTableOf-cons_row n ns (ok (row, ws)) (err (missing_feature i key)) h k = inr k
  IsTableOf-cons_row n ns (ok (row, ws)) (ok (rows, ws')) h k = (h, k)

  IsTableOf-rows_of : (ns : List (FeatureNode F)) → IsTableOf ns (rows_of is_finite ns)
  unfolding rows_of
  IsTableOf-rows_of [] = tt
  IsTableOf-rows_of (n ∷ ns) =
      IsTableOf-cons_row n ns (row_of is_finite n.id n.features feature_order)
        (rows_of is_finite ns) (IsRowOf-row_of n.id n.features feature_order) (IsTableOf-rows_of ns)

  module _ (to_float32 : F → F) where
    IsRow-map :
        (features : List (Text × F)) (keys : List Text) (row : List F)
        → IsRow plain features keys row
        → (length row ≡ length keys) × IsRow to_float32 features keys (map to_float32 row)
    IsRow-map features [] [] h = (refl, tt)
    IsRow-map features [] (c ∷ cs) h = absurd h
    IsRow-map features (k ∷ ks) [] h = absurd h
    IsRow-map features (k ∷ ks) (c ∷ cs) ((v, g, inl (fine, e)), h) =
        let (l, rest) = IsRow-map features ks cs h in
        (omega (arith, l), ((v, g, inl (fine, ap to_float32 e)), rest))
    IsRow-map features (k ∷ ks) (c ∷ cs) ((v, g, inr (odd, e)), h) =
        let (l, rest) = IsRow-map features ks cs h in
        (omega (arith, l), ((v, g, inr (odd, ap to_float32 e)), rest))

    AreRows-map :
        (ns : List (FeatureNode F)) (rows : List (List F))
        → AreRows plain ns rows
        → HasShape (length ns) (map (map to_float32) rows)
          × AreRows to_float32 ns (map (map to_float32) rows)
    AreRows-map [] [] h = ((refl, tt), tt)
    AreRows-map [] (r ∷ rs) h = absurd h
    AreRows-map (n ∷ ns) [] h = absurd h
    AreRows-map (n ∷ ns) (r ∷ rs) h =
        let ((l, shape), rest) = AreRows-map ns rs h.1 in
        let (size, row) = IsRow-map n.features feature_order r h.0 in
        ((omega (arith, l), (length-map r to_float32 ∙ size, shape)), (row, rest))

    IsTensor-rounded :
        (nodes : List (FeatureNode F)) (t : Table is_finite)
        → IsTableOf nodes t
        → IsTensor to_float32 nodes (rounded is_finite to_float32 t)
    IsTensor-rounded nodes (ok (rows, ws)) h = AreRows-map nodes rows h
    IsTensor-rounded nodes (err no_nodes) h = absurd h
    IsTensor-rounded nodes (err (missing_feature id key)) h = h

    -- A feature tensor has a row for every node and five cells in every row: the features in their
    -- fixed order, each rounded to float32 or, where it is a NaN or infinite before the rounding,
    -- zero in its place. The call raises only for an empty list of nodes, or for a feature that the
    -- named node lacks.
    pub feature_tensor-IsTensor :
        (nodes : List (FeatureNode F))
        → IsTensor to_float32 nodes (feature_tensor is_finite to_float32 nodes)
    unfolding feature_tensor
    feature_tensor-IsTensor [] = refl
    feature_tensor-IsTensor (n ∷ ns) =
        IsTensor-rounded (n ∷ ns) (rows_of is_finite (n ∷ ns)) (IsTableOf-rows_of (n ∷ ns))
