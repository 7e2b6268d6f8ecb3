-- ===== src/Tools/ProfileQuality/Counts.antt =====
-- What a tally counts.
use ai_quantum.Common.{
  ℕ, ◌+◌, ◌≡◌, refl, ap, if◌then◌else◌, Bool-cases, inl, inr, List, [], ◌∷◌, length, arith,
}
use ai_quantum.Common.Text.{Text, text_eq, text_eq_iff}
use ai_quantum.Common.Eq.{text_eq_instance}
use ai_quantum.Common.Dict.{get, put, get-put}
use ai_quantum.Ingestion.Event.{TickDataEvent}
use ai_quantum.Tools.ProfileQuality.{Tally, or_zero, tally}

abbrev pub number : Text → Tally → ℕ
number value counts = or_zero (get value counts)

pub number-nil : (value : Text) → number value [] ≡ 0
unfolding get
number-nil value = refl

number-put :
    (value name : Text) (counts : Tally)
    → number value (put name (number name counts + 1) counts)
      ≡ (if text_eq name value then 1 else 0) + number value counts
number-put value name counts =
    rw (get-put name value (number name counts + 1) counts)
      (elim (Bool-cases (text_eq name value)) [
        | inr other ↦ rw other (omega arith)
        | inl same ↦
            let equal : name ≡ value = (text_eq_iff name value).0 same in
            rw same (omega (arith, ap (λ (n : Text). number n counts) equal))
      ])

abbrev pub sum_of : Tally → ℕ
sum_of [] = 0
sum_of ((name, n) ∷ counts) = n + sum_of counts

sum_of-put :
    (name : Text) (value : ℕ) (counts : Tally)
    → sum_of (put name value counts) + number name counts ≡ sum_of counts + value
unfolding get put
sum_of-put name value [] = omega arith
sum_of-put name value ((other, n) ∷ counts) = elim (Bool-cases (text_eq other name)) [
  | inl same ↦ rw same (omega arith)
  | inr differs ↦ rw differs (omega (arith, sum_of-put name value counts))
]

module _ (field : TickDataEvent → Text) where
  -- How many events have the value.
  abbrev pub occurrences : Text → List TickDataEvent → ℕ
  occurrences value [] = 0
  occurrences value (e ∷ es) = (if text_eq (field e) value then 1 else 0) + occurrences value es

  pub number-tally :
      (value : Text) (es : List TickDataEvent) (counts : Tally)
      → number value (tally field es counts) ≡ number value counts + occurrences value es
  unfolding tally
  number-tally value [] counts = omega arith
  number-tally value (e ∷ es) counts = omega (
    arith,
    number-tally value es (put (field e) (number (field e) counts + 1) counts),
    number-put value (field e) counts,
  )

  pub sum_of-tally :
      (es : List TickDataEvent) (counts : Tally)
      → sum_of (tally field es counts) ≡ sum_of counts + length es
  unfolding tally
  sum_of-tally [] counts = omega arith
  sum_of-tally (e ∷ es) counts = omega (
    arith,
    sum_of-tally es (put (field e) (number (field e) counts + 1) counts),
    sum_of-put (field e) (number (field e) counts + 1) counts,
  )
