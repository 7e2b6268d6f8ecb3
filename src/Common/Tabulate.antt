-- ===== src/Common/Tabulate.antt =====
-- `[f(i) for i in range(n)]`, and the last items of a list.
use Prim.Native.Nat.{ℕ, zero, suc, ◌-◌, ◌<◌, min}
use mathlib.Core.Path.{◌≡◌, refl, ap}
use mathlib.Core.List.{List, [], ◌∷◌, ◌++◌}
use mathlib.Core.Option.{some}
use native.Mathlib.Omega.{arith}
use ai_quantum.Common.Lists.{length, get_elem?, drop, length-drop}

module _ {ℓ} {A : Type ℓ} where
  abbrev pub tabulate : ℕ → (ℕ → A) → List A
  tabulate zero f = []
  tabulate (suc n) f = f 0 ∷ tabulate n (λ i. f (suc i))

  pub length-tabulate : (n : ℕ) (f : ℕ → A) → length (tabulate n f) ≡ n
  length-tabulate zero f = refl
  length-tabulate (suc n) f = ap suc (length-tabulate n (λ i. f (suc i)))

  pub get_elem?-tabulate :
      (n : ℕ) (f : ℕ → A) (i : ℕ) → i < n → get_elem? (tabulate n f) i ≡ some (f i)
  get_elem?-tabulate zero f i h = elim h [ ]
  get_elem?-tabulate (suc n) f zero h = refl
  get_elem?-tabulate (suc n) f (suc i) h = get_elem?-tabulate n (λ j. f (suc j)) i (omega arith)

  -- `xs[-n:]` for a positive `n`: the whole list where it has fewer items.
  abbrev pub last : ℕ → List A → List A
  last n xs = drop (length xs - n) xs

  pub length-last : (n : ℕ) (xs : List A) → length (last n xs) ≡ min n (length xs)
  length-last n xs = omega (arith, length-drop (length xs - n) xs)

  pub tabulate_snoc : (n : ℕ) (f : ℕ → A) → tabulate (suc n) f ≡ tabulate n f ++ f n ∷ []
  tabulate_snoc zero f = refl
  tabulate_snoc (suc n) f = ap (λ (t : List A). f 0 ∷ t) (tabulate_snoc n (λ i. f (suc i)))
