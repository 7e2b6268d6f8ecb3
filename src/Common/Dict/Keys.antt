-- ===== src/Common/Dict/Keys.antt =====
-- The keys of a dictionary, and what all its items have.
use mathlib.Core.Path.{◌≡◌, refl, sym, subst}
use mathlib.Core.Logic.{inl, inr}
use mathlib.Core.Bool.{Bool, true, false, ◌||◌}
use mathlib.Core.Option.{none, some}
use mathlib.Core.List.{List, [], ◌∷◌}
use native.Mathlib.Omega.{arith}
use ai_quantum.Common.Tests.{Bool-cases}
use ai_quantum.Common.Eq.{Eq, eqb, eqb_refl}
use ai_quantum.Common.Set.{contains, IsUnique}
use ai_quantum.Common.Dict.{keys, get, put}

abbrev pub All {ℓ} : {A : Type ℓ} → (A → Type 0) → List A → Type 0
All P [] = Unit
All P (x ∷ xs) = P x × All P xs

pub All-map {ℓ} :
    {A : Type ℓ} {P Q : A → Type 0} (xs : List A) → ((x : A) → P x → Q x) → All P xs → All Q xs
All-map [] f h = tt
All-map (x ∷ xs) f h = (f x h.0, All-map xs f h.1)

module _ {K V : Type 0} ⦃e : Eq K⦄ where
  abbrev pub has : K → List (K × V) → Bool
  has k d = contains k (keys d)

  pub has-put : (k j : K) (v : V) (d : List (K × V)) → has j (put k v d) ≡ (eqb k j || has j d)
  unfolding put contains keys
  has-put k j v [] = refl
  has-put k j v ((i, w) ∷ d) =
      ground (arith, e.are_same_iff k j, e.are_same_iff i k, e.are_same_iff i j, has-put k j v d)

  pub has-put_self : (k : K) (v : V) (d : List (K × V)) → has k (put k v d) ≡ true
  has-put_self k v d = ground (arith, has-put k k v d, eqb_refl k)

  pub has-put_old : (k j : K) (v : V) (d : List (K × V)) → has j d ≡ true → has j (put k v d) ≡ true
  has-put_old k j v d h = ground (arith, has-put k j v d)

  pub put-IsUnique :
      (k : K) (v : V) (d : List (K × V)) → IsUnique (keys d) → IsUnique (keys (put k v d))
  unfolding put keys contains
  put-IsUnique k v [] u = (refl, tt)
  put-IsUnique k v ((i, w) ∷ d) u = elim (Bool-cases (eqb i k)) [
    | inl same ↦ rw same (u.0, u.1)
    | inr other ↦ rw other (
      ground (arith, has-put k i v d, u.0, e.are_same_iff i k, e.are_same_iff k i),
      put-IsUnique k v d u.1,
    )
  ]

  pub get-has : (k : K) (d : List (K × V)) → has k d ≡ true → (v : V) × (get k d ≡ some v)
  unfolding get keys contains
  get-has k [] h = let bad : false ≡ true = h in absurd (cc bad)
  get-has k ((i, w) ∷ d) h = elim (Bool-cases (eqb i k)) [
    | inl same ↦ (w, rw same refl)
    | inr other ↦ let (v, g) = get-has k d (rw other at h) in (v, rw other g)
  ]

  pub get-missing : (k : K) (d : List (K × V)) → has k d ≡ false → get k d ≡ none
  unfolding get keys contains
  get-missing k [] h = refl
  get-missing k ((i, w) ∷ d) h = elim (Bool-cases (eqb i k)) [
    | inl same ↦ let bad : true ≡ false = rw same at h in absurd (cc bad)
    | inr other ↦ rw other (get-missing k d (rw other at h))
  ]

  pub All-put :
      (P : K × V → Type 0) (k : K) (v : V) (d : List (K × V))
      → P (k, v)
      → All P d
      → All P (put k v d)
  unfolding put
  All-put P k v [] p h = (p, tt)
  All-put P k v ((i, w) ∷ d) p h = elim (Bool-cases (eqb i k)) [
    | inl same ↦ rw same (subst (λ j. P (j, v)) (sym ((e.are_same_iff i k).0 same)) p, h.1)
    | inr other ↦ rw other (h.0, All-put P k v d p h.1)
  ]

  pub All-get :
      (P : K × V → Type 0) (k : K) (v : V) (d : List (K × V))
      → get k d ≡ some v
      → All P d
      → P (k, v)
  unfolding get
  All-get P k v [] g h = cc g
  All-get P k v ((i, w) ∷ d) g h = elim (Bool-cases (eqb i k)) [
    | inl same ↦
        let here : some w ≡ some v = rw same at g in
        let value : w ≡ v = ground (arith, here) in
        subst (λ j. P (j, v)) ((e.are_same_iff i k).0 same) (subst (λ x. P (i, x)) value h.0)
    | inr other ↦ All-get P k v d (rw other at g) h.1
  ]
