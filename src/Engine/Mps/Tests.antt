-- ===== src/Engine/Mps/Tests.antt =====
-- Tensors of two nodes. A spectrum with three values, of which the last is within the tolerance; numbers are sixteenths.
use ai_quantum.Common.{
  ℕ, zero, suc, ◌≤◌, ◌<◌, ◌≡◌, refl, ap, inl, inr, true, false, if◌then◌else◌, Bool-cases, List, [],
  ◌∷◌, length, get_elem?, none, some, ok, err, arith,
}
use ai_quantum.Common.Int.{ℤ, pos, negsuc, ltb_ℤ}
use ai_quantum.Common.Float.Exact.{sixteenths}
use ai_quantum.Common.Text.{Text, codes, text_eq}
use ai_quantum.Common.Dict.{get, put}
use ai_quantum.Core.Snapshot.{Node, GraphSnapshot}
use ai_quantum.Engine.Mps.Naive
use ai_quantum.Engine.Mps.Naive.{fragility_raw_from_graph, is_vector, wrong_weights}
use ai_quantum.Engine.Mps.Truncation.{
  Factors, Torch, truncated_svd, auto_rank, bad_rank, numerical_rank,
}
use ai_quantum.Engine.Mps.Truncation.Kept.{IsOrdered, IsTruncation, truncated_svd-IsTruncation}
use ai_quantum.Engine.Mps.Truncation.Smallest.{IsTorch, IsChosen, auto_rank-IsChosen}

sixteenths-IsOrdered : IsOrdered ℤ
sixteenths-IsOrdered = record { lt_le_trans = λ a b c h k. ground arith }

abbrev three : Factors ℤ
three = record {
  u = (pos 1 ∷ pos 2 ∷ pos 3 ∷ []) ∷ (pos 4 ∷ pos 5 ∷ pos 6 ∷ []) ∷ [];
  s = pos 48 ∷ pos 16 ∷ pos 1 ∷ [];
  vh = (pos 7 ∷ []) ∷ (pos 8 ∷ []) ∷ (pos 9 ∷ []) ∷ [];
}

abbrev svd : Unit {0} → Factors ℤ
svd matrix = three

two_kept :
    truncated_svd svd tt (pos 3) (pos 2)
    ≡ ok (
      true,
      record {
        u = (pos 1 ∷ pos 2 ∷ []) ∷ (pos 4 ∷ pos 5 ∷ []) ∷ [];
        s = pos 48 ∷ pos 16 ∷ [];
        vh = (pos 7 ∷ []) ∷ (pos 8 ∷ []) ∷ [];
      },
    )
unfolding truncated_svd
two_kept = refl

no_rank : truncated_svd svd tt (negsuc 1) (pos 2) ≡ err (bad_rank (negsuc 1))
unfolding truncated_svd
no_rank = refl

two_above : numerical_rank (λ (m : Unit {0}). three.s) tt (pos 2) ≡ 2
unfolding numerical_rank
two_above = refl

truncated_svd-IsTruncation_example :
    IsTruncation (pos 3) (pos 2) three (truncated_svd svd tt (pos 3) (pos 2))
truncated_svd-IsTruncation_example =
    truncated_svd-IsTruncation sixteenths-IsOrdered svd tt (pos 3) (pos 2) (refl, (refl, tt))

-- Sums as torch takes them, and the number of leading items below the value.
abbrev total : ℤ → List ℤ → ℤ
total acc [] = acc
total acc (x ∷ xs) = total (sixteenths.add acc x) xs

abbrev partial_sums : ℤ → List ℤ → List ℤ
partial_sums acc [] = []
partial_sums acc (x ∷ xs) = sixteenths.add acc x ∷ partial_sums (sixteenths.add acc x) xs

abbrev leading_below : List ℤ → ℤ → ℕ
leading_below [] v = 0
leading_below (x ∷ xs) v = let rest = leading_below xs v in if ltb_ℤ x v then suc rest else 0

abbrev torch : Torch ℤ
torch = record {
  sum = total (pos 0);
  cumsum = partial_sums (pos 0);
  searchsorted = leading_below;
  to_dtype = λ x. x;
}

length-partial_sums : (acc : ℤ) (xs : List ℤ) → length (partial_sums acc xs) ≡ length xs
length-partial_sums acc [] = refl
length-partial_sums acc (x ∷ xs) = ap suc (length-partial_sums (sixteenths.add acc x) xs)

leading_below-le : (xs : List ℤ) (v : ℤ) → leading_below xs v ≤ length xs
leading_below-le [] v = omega arith
leading_below-le (x ∷ xs) v = elim (Bool-cases (ltb_ℤ x v)) [
  | inl less ↦ rw less (omega (arith, leading_below-le xs v))
  | inr more ↦ rw more (omega arith)
]

leading_below-before :
    (xs : List ℤ) (v : ℤ) (i : ℕ) (x : ℤ)
    → i < leading_below xs v
    → get_elem? xs i ≡ some x
    → ltb_ℤ x v ≡ true
leading_below-before [] v i x h g = absurd (omega (arith, h))
leading_below-before (y ∷ xs) v zero x h g = elim (Bool-cases (ltb_ℤ y v)) [
  | inl less ↦ let same : y ≡ x = cc g in rw same at less
  | inr more ↦ absurd (omega (arith, (rw more at h)))
]
leading_below-before (y ∷ xs) v (suc i) x h g = elim (Bool-cases (ltb_ℤ y v)) [
  | inl less ↦ leading_below-before xs v i x (omega (arith, (rw less at h))) g
  | inr more ↦ absurd (omega (arith, (rw more at h)))
]

leading_below-split :
    (xs : List ℤ) (v : ℤ) (x : ℤ) → get_elem? xs (leading_below xs v) ≡ some x → ltb_ℤ x v ≡ false
leading_below-split [] v x g = cc g
leading_below-split (y ∷ xs) v x g = elim (Bool-cases (ltb_ℤ y v)) [
  | inl less ↦ leading_below-split xs v x (rw less at g)
  | inr more ↦
      let here : some y ≡ some x = rw more at g in let same : y ≡ x = cc here in rw same at more
]

torch-IsTorch : IsTorch torch
torch-IsTorch = record {
  within = λ xs v r. leading_below-le xs v;
  before = λ xs v r i x h g. leading_below-before xs v i x h g;
  at_split = λ xs v r x g. leading_below-split xs v x g;
  length-cumsum = length-partial_sums (pos 0);
}

abbrev spectrum : Unit {0} → List ℤ
spectrum matrix = pos 48 ∷ pos 16 ∷ pos 1 ∷ []

-- The first value holds nine tenths of the energy.
one_is_enough : auto_rank torch spectrum tt (pos 14) ≡ ok 1
unfolding auto_rank
one_is_enough = refl

two_are_needed : auto_rank torch spectrum tt (pos 16) ≡ ok 2
unfolding auto_rank
two_are_needed = refl

auto_rank-IsChosen_example :
    IsChosen torch (spectrum tt) (pos 14) (auto_rank torch spectrum tt (pos 14))
auto_rank-IsChosen_example =
    auto_rank-IsChosen torch torch-IsTorch spectrum tt (pos 14) (omega arith) (refl, (refl, tt))

-- Tensors by their shapes alone, whose sums are one.
abbrev shapes : Naive.Torch ℤ (List ℕ)
shapes = record {
  shape = λ t. t;
  to_float32 = λ t. t;
  ones = λ n. n ∷ [];
  matmul = λ a b. 2 ∷ [];
  any_negative = λ t. false;
  sum = λ t. pos 16;
  sqrt = λ t. t;
  as_column = λ t. t;
  as_row = λ t. t;
  mul = λ a b. a;
  svdvals = λ t. some t;
  div_by = λ t x. t;
  select_above = λ t x. t;
  log = λ t. t;
  neg = λ t. t;
  math_log = λ n. pos 16;
  of_matrix = λ n m. n ∷ n ∷ [];
  of_rows = λ rows. length rows ∷ 5 ∷ [];
}

abbrev node : Text → Node ℤ
node id = record {
  id = id;
  node_type = codes "pool";
  features = record {
    tvl_usd = pos 16;
    volume_24h_usd = pos 32;
    price_usd = pos 16;
    volatility = pos 1;
    connectivity = pos 8;
  };
}

abbrev pair : GraphSnapshot ℤ
pair = record {
  snapshot_id = codes "s";
  start = 1;
  end = 2;
  created_at = codes "now";
  nodes = node (codes "a") ∷ node (codes "b") ∷ [];
  edges =
      record { src = codes "a"; dst = codes "b"; weight = pos 16; edge_type = codes "swap" } ∷ [];
}

pair_score : fragility_raw_from_graph shapes (pos 0) (λ x. true) (λ x. x) pair none ≡ ok (pos 16)
unfolding fragility_raw_from_graph text_eq get put is_vector
pair_score = refl

four_weights :
    fragility_raw_from_graph shapes (pos 0) (λ x. true) (λ x. x) pair (some (4 ∷ []))
    ≡ err (wrong_weights (4 ∷ []))
unfolding fragility_raw_from_graph text_eq get put is_vector
four_weights = refl
