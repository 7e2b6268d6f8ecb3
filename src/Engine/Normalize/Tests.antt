-- ===== src/Engine/Normalize/Tests.antt =====
-- Two columns, one of them constant; numbers are sixteenths.
use ai_quantum.Common.{some, replicate, length-replicate, arith, ◌≡◌, refl, List, [], ◌∷◌, ok, err}
use ai_quantum.Common.Int.{ℤ, pos}
use ai_quantum.Common.Text.{codes, text_eq}
use ai_quantum.Common.Float.Exact.{sixteenths}
use ai_quantum.Engine.Normalize.{
  Tensor, NormalizationState, Statistics, state_of, apply, normalize, unknown_method, shape_error,
}
use ai_quantum.Engine.Normalize.Columns.{HasColumns, IsNormalized, normalize-IsNormalized}

-- The statistics of the columns of `table`.
abbrev stats : Statistics ℤ
stats = record {
  column_min = λ x. some (pos 16 ∷ pos 32 ∷ []);
  column_max = λ x. some (pos 48 ∷ pos 32 ∷ []);
  column_mean = λ x. pos 32 ∷ pos 32 ∷ [];
  column_std = λ x. pos 16 ∷ pos 0 ∷ [];
}

abbrev table : Tensor ℤ
table = record { columns = 2; rows = (pos 16 ∷ pos 32 ∷ []) ∷ (pos 48 ∷ pos 32 ∷ []) ∷ [] }

minmax_table :
    normalize stats table (codes "minmax")
    ≡ ok (
      record { columns = 2; rows = (pos 0 ∷ pos 0 ∷ []) ∷ (pos 16 ∷ pos 0 ∷ []) ∷ [] },
      state_of (codes "minmax") (pos 16 ∷ pos 32 ∷ []) (pos 32 ∷ pos 0 ∷ []),
    )
unfolding normalize text_eq
minmax_table = refl

no_method : normalize stats table (codes "robust") ≡ err (unknown_method (codes "robust"))
unfolding normalize text_eq
no_method = refl

abbrev fitted_state : NormalizationState ℤ
fitted_state = state_of (codes "minmax") (pos 16 ∷ pos 32 ∷ []) (pos 32 ∷ pos 0 ∷ [])

-- Three columns do not fit two, and a single one is repeated.
three_columns : apply fitted_state (record { columns = 3; rows = [] }) ≡ err (shape_error 3 2)
unfolding apply
three_columns = refl

one_column :
    apply fitted_state (record { columns = 1; rows = (pos 48 ∷ []) ∷ [] })
    ≡ ok (record { columns = 2; rows = (pos 16 ∷ pos 0 ∷ []) ∷ [] })
unfolding apply
one_column = refl

-- A statistic that repeats a number for each column.
abbrev each : ℤ → Tensor ℤ → List ℤ
each z x = replicate x.columns z

abbrev flat : Statistics ℤ
flat = record {
  column_min = λ x. some (each (pos 16) x);
  column_max = λ x. some (each (pos 48) x);
  column_mean = λ x. each (pos 32) x;
  column_std = λ x. each (pos 16) x;
}

flat_columns : HasColumns flat
flat_columns = record {
  some_min = λ x h. (each (pos 16) x, refl, length-replicate x.columns (pos 16));
  some_max = λ x h. (each (pos 48) x, refl, length-replicate x.columns (pos 48));
  mean_columns = λ x. length-replicate x.columns (pos 32);
  std_columns = λ x. length-replicate x.columns (pos 16);
}

abbrev next_table : Tensor ℤ
next_table = record { columns = 2; rows = (pos 64 ∷ pos 7 ∷ []) ∷ [] }

normalize-IsNormalized_example :
    IsNormalized flat table (codes "zscore") next_table (normalize flat table (codes "zscore"))
normalize-IsNormalized_example =
    normalize-IsNormalized flat flat_columns table (codes "zscore") next_table (omega arith)
      (refl, (refl, tt)) (refl, tt) refl refl
