-- ===== src/Engine/Graph/Ids.antt =====
-- Which ids of nodes are different, and which pairs of pools make an edge.
use ai_quantum.Common.{
  true, false, ◌≡◌, refl, sym, ◌∙◌, inl, inr, Bool-cases, List, [], ◌∷◌, ◌++◌, map, arith,
}
use ai_quantum.Common.Text.{Text, codes, text_eq, text_eq_iff}
use ai_quantum.Common.Eq.{eqb, text_eq_instance}
use ai_quantum.Common.Dict.Keys.{All}
use ai_quantum.Common.Set.{contains, sorted, contains-sorted, sorted-IsUnique, IsUnique}
use ai_quantum.Engine.Graph.Consistent.{HasNoColon}
use ai_quantum.Engine.Graph.Edges.{protocol_id, pool_id, token_id, pairs, text_leb}

-- Up to the first colon, two ids are the same only if what follows it is.
same_after_colon :
    (s t x y : Text)
    → HasNoColon s
    → HasNoColon t
    → text_eq (s ++ codes ":" ++ x) (t ++ codes ":" ++ y) ≡ true
    → x ≡ y
unfolding text_eq
same_after_colon [] [] x y h k e = (text_eq_iff x y).0 (ground (arith, e))
same_after_colon [] (d ∷ t) x y h k e = let bad : false ≡ true = ground (arith, e, k.0) in cc bad
same_after_colon (c ∷ s) [] x y h k e = let bad : false ≡ true = ground (arith, e, h.0) in cc bad
same_after_colon (c ∷ s) (d ∷ t) x y h k e = same_after_colon s t x y h.1 k.1 (ground (arith, e))

pub pool_id-token_id : (pr p t : Text) → eqb (pool_id pr p) (token_id t) ≡ false
unfolding pool_id token_id text_eq
pool_id-token_id pr p t = refl

pub protocol_id-pool_id : (pr p : Text) → eqb (protocol_id pr) (pool_id pr p) ≡ false
unfolding pool_id protocol_id text_eq
protocol_id-pool_id pr p = refl

pub pool_id-pool_id :
    (s t x y : Text)
    → HasNoColon s
    → HasNoColon t
    → eqb x y ≡ false
    → eqb (pool_id s x) (pool_id t y) ≡ false
unfolding pool_id text_eq
pool_id-pool_id s t x y h k differ =
    elim (Bool-cases (text_eq (s ++ codes ":" ++ x) (t ++ codes ":" ++ y))) [
      | inr other ↦ other
      | inl same ↦
          let e = same_after_colon s t x y h k same in
          let bad : false ≡ true = sym differ ∙ (text_eq_iff x y).1 e in cc bad
    ]

-- A pair of different texts of the list.
abbrev pub IsPairOf : List Text → Text × Text → Type 0
IsPairOf xs q = (contains q.0 xs ≡ true) × (contains q.1 xs ≡ true) × (eqb q.0 q.1 ≡ false)

pub All-append :
    {A : Type 0} (P : A → Type 0) (xs ys : List A) → All P xs → All P ys → All P (xs ++ ys)
All-append P [] ys h k = k
All-append P (x ∷ xs) ys h k = (h.0, All-append P xs ys h.1 k)

first_pairs :
    (x : Text) (all xs : List Text)
    → contains x all ≡ true
    → ((y : Text) → contains y xs ≡ true → contains y all ≡ true)
    → contains x xs ≡ false
    → All (IsPairOf all) (map (λ (y : Text). (x, y)) xs)
unfolding contains
first_pairs x all [] h inside fresh = tt
first_pairs x all (y ∷ ys) h inside fresh = (
  (
    h,
    inside y (ground (arith, text_eq_iff y y)),
    ground (arith, fresh, text_eq_iff x y, text_eq_iff y x),
  ),
  first_pairs x all ys h (λ z i. inside z (ground (arith, i))) (ground (arith, fresh)),
)

pairs-within :
    (all xs : List Text)
    → ((y : Text) → contains y xs ≡ true → contains y all ≡ true)
    → IsUnique xs
    → All (IsPairOf all) (pairs xs)
unfolding pairs contains
pairs-within all [] inside u = tt
pairs-within all (x ∷ xs) inside u =
    let rest = λ (y : Text) (i : contains y xs ≡ true). inside y (ground (arith, i)) in
    All-append (IsPairOf all) (map (λ (y : Text). (x, y)) xs) (pairs xs)
      (first_pairs x all xs (inside x (ground (arith, text_eq_iff x x))) rest u.0)
      (pairs-within all xs rest u.1)

-- The pairs of a set's sorted items.
pub pairs-sorted : (xs : List Text) → IsUnique xs → All (IsPairOf xs) (pairs (sorted text_leb xs))
pairs-sorted xs u =
    pairs-within xs (sorted text_leb xs) (λ y h. sym (contains-sorted text_leb y xs) ∙ h)
      (sorted-IsUnique text_leb xs u)
