-- ===== src/Common/Dict.antt =====
-- Python's `dict` as an association list in insertion order: a write to a key that is there keeps
-- the key's place. The representation is private to this module and its laws.
pub mod Keys
use mathlib.Core.Path.{◌≡◌, refl}
use mathlib.Core.Option.{Option, none, some}
use mathlib.Core.List.{List, [], ◌∷◌}
use native.Mathlib.Omega.{arith}
use ai_quantum.Common.Tests.{if◌then◌else◌}
use ai_quantum.Common.Eq.{Eq, eqb, eqb_refl}

module _ {ℓ κ} {K : Type ℓ} {V : Type κ} where
  -- `list(d)`.
  unfoldable pub keys : List (K × V) → List K
  keys [] = []
  keys ((k, v) ∷ d) = k ∷ keys d

module _ {K V : Type 0} ⦃e : Eq K⦄ where
  -- `d.get(k)`.
  unfoldable pub get : K → List (K × V) → Option V
  get k [] = none
  get k ((j, v) ∷ d) = if eqb j k then some v else get k d

  -- `d[k] = v`.
  unfoldable pub put : K → V → List (K × V) → List (K × V)
  put k v [] = (k, v) ∷ []
  put k v ((j, w) ∷ d) = if eqb j k then (j, v) ∷ d else (j, w) ∷ put k v d

  -- `d.pop(k, None)`.
  unfoldable pub remove : K → List (K × V) → List (K × V)
  remove k [] = []
  remove k ((j, w) ∷ d) = let rest = remove k d in if eqb j k then rest else (j, w) ∷ rest

  pub get-put :
      (k j : K) (v : V) (d : List (K × V))
      → get j (put k v d) ≡ (if eqb k j then some v else get j d)
  unfolding get put
  get-put k j v [] = refl
  get-put k j v ((i, w) ∷ d) =
      ground (arith, e.are_same_iff k j, e.are_same_iff i k, e.are_same_iff i j, get-put k j v d)

  pub get-put_self : (k : K) (v : V) (d : List (K × V)) → get k (put k v d) ≡ some v
  get-put_self k v d = rw (get-put k k v d, eqb_refl k)

  pub get-remove :
      (k j : K) (d : List (K × V)) → get j (remove k d) ≡ (if eqb k j then none else get j d)
  unfolding get remove
  get-remove k j [] = ground arith
  get-remove k j ((i, w) ∷ d) =
      ground (arith, e.are_same_iff k j, e.are_same_iff i k, e.are_same_iff i j, get-remove k j d)
