-- ===== src/Common/Set.antt =====
-- Python's `set` as a list without repetitions, and `sorted`.
use ai_quantum.Common.Tests.{if◌then◌else◌, Bool-cases}
use ai_quantum.Common.Eq.{Eq, eqb}
use mathlib.Core.Path.{◌≡◌, refl, ap, ◌∙◌}
use mathlib.Core.Logic.{inl, inr}
use mathlib.Core.Bool.{Bool, true, false, not, ◌&&◌, ◌||◌}
use mathlib.Core.List.{List, [], ◌∷◌}
use native.Mathlib.Omega.{arith}

module _ {A : Type 0} ⦃e : Eq A⦄ where
  -- `x in s`.
  unfoldable pub contains : A → List A → Bool
  contains x [] = false
  contains x (y ∷ s) = eqb y x || contains x s

  -- `s.add(x)`.
  unfoldable pub add : A → List A → List A
  add x s = if contains x s then s else x ∷ s

  -- `s.discard(x)`.
  unfoldable pub discard : A → List A → List A
  discard x [] = []
  discard x (y ∷ s) = let rest = discard x s in if eqb y x then rest else y ∷ rest

  -- `set(xs)`.
  unfoldable pub of_list : List A → List A
  unfolding add
  of_list [] = []
  of_list (x ∷ xs) = add x (of_list xs)

  pub contains-add : (x y : A) (s : List A) → contains y (add x s) ≡ (eqb x y || contains y s)
  unfolding add contains
  contains-add x y s = elim (Bool-cases (contains x s)) [
    | inl old ↦ rw old (ground (arith, e.are_same_iff x y, old))
    | inr new ↦ rw new
  ]

  pub contains-discard :
      (x y : A) (s : List A) → contains y (discard x s) ≡ (not (eqb x y) && contains y s)
  unfolding contains discard
  contains-discard x y [] = ground arith
  contains-discard x y (z ∷ s) =
      ground
        (arith, e.are_same_iff x y, e.are_same_iff z x, e.are_same_iff z y, contains-discard x y s)

  -- No item is in the list twice.
  abbrev pub IsUnique : List A → Type 0
  IsUnique [] = Unit
  IsUnique (x ∷ xs) = (contains x xs ≡ false) × IsUnique xs

  pub add-IsUnique : (x : A) (s : List A) → IsUnique s → IsUnique (add x s)
  unfolding add
  add-IsUnique x s u = elim (Bool-cases (contains x s)) [
    | inl old ↦ rw old u
    | inr new ↦ rw new (new, u)
  ]

  pub contains-of_list : (y : A) (xs : List A) → contains y (of_list xs) ≡ contains y xs
  unfolding of_list contains
  contains-of_list y [] = refl
  contains-of_list y (x ∷ xs) =
      contains-add x y (of_list xs) ∙ ap (λ (b : Bool). eqb x y || b) (contains-of_list y xs)

module _ {A : Type 0} ⦃e : Eq A⦄ (le : A → A → Bool) where
  unfoldable pub insert : A → List A → List A
  insert x [] = x ∷ []
  insert x (y ∷ ys) = if le x y then x ∷ y ∷ ys else y ∷ insert x ys

  -- `sorted(s)`.
  unfoldable pub sorted : List A → List A
  unfolding insert
  sorted [] = []
  sorted (x ∷ xs) = insert x (sorted xs)

  contains-insert : (x y : A) (s : List A) → contains y (insert x s) ≡ (eqb x y || contains y s)
  unfolding insert contains
  contains-insert x y [] = refl
  contains-insert x y (z ∷ s) = ground (arith, contains-insert x y s)

  pub contains-sorted : (y : A) (xs : List A) → contains y (sorted xs) ≡ contains y xs
  unfolding sorted contains
  contains-sorted y [] = refl
  contains-sorted y (x ∷ xs) =
      contains-insert x y (sorted xs) ∙ ap (λ (b : Bool). eqb x y || b) (contains-sorted y xs)

  insert-IsUnique :
      (x : A) (xs : List A) → contains x xs ≡ false → IsUnique xs → IsUnique (insert x xs)
  unfolding insert contains
  insert-IsUnique x [] h u = (refl, tt)
  insert-IsUnique x (y ∷ ys) h u = elim (Bool-cases (le x y)) [
    | inl first ↦ rw first (h, (u.0, u.1))
    | inr later ↦ rw later (
      ground (arith, contains-insert x y ys, u.0, e.are_same_iff x y, e.are_same_iff y x),
      insert-IsUnique x ys (ground arith) u.1,
    )
  ]

  pub sorted-IsUnique : (xs : List A) → IsUnique xs → IsUnique (sorted xs)
  unfolding sorted
  sorted-IsUnique [] u = tt
  sorted-IsUnique (x ∷ xs) u =
      insert-IsUnique x (sorted xs) (contains-sorted x xs ∙ u.0) (sorted-IsUnique xs u.1)

  abbrev pub Below : A → List A → Type 0
  Below x [] = Unit
  Below x (y ∷ ys) = (le x y ≡ true) × Below x ys

  abbrev pub IsSorted : List A → Type 0
  IsSorted [] = Unit
  IsSorted (x ∷ xs) = Below x xs × IsSorted xs

  module _ (total : (a b : A) → le a b ≡ false → le b a ≡ true)
      (trans : (a b c : A) → le a b ≡ true → le b c ≡ true → le a c ≡ true) where
    Below-trans : (a b : A) (xs : List A) → le a b ≡ true → Below b xs → Below a xs
    Below-trans a b [] h k = tt
    Below-trans a b (x ∷ xs) h k = (trans a b x h k.0, Below-trans a b xs h k.1)

    Below-insert : (a x : A) (xs : List A) → le a x ≡ true → Below a xs → Below a (insert x xs)
    unfolding insert
    Below-insert a x [] h k = (h, tt)
    Below-insert a x (y ∷ ys) h k = elim (Bool-cases (le x y)) [
      | inl first ↦ rw first (h, (k.0, k.1))
      | inr later ↦ rw later (k.0, Below-insert a x ys h k.1)
    ]

    insert-IsSorted : (x : A) (xs : List A) → IsSorted xs → IsSorted (insert x xs)
    unfolding insert
    insert-IsSorted x [] h = (tt, tt)
    insert-IsSorted x (y ∷ ys) h = elim (Bool-cases (le x y)) [
      | inl first ↦ rw first ((first, Below-trans x y ys first h.0), (h.0, h.1))
      | inr later ↦ rw later (Below-insert y x ys (total x y later) h.0, insert-IsSorted x ys h.1)
    ]

    pub sorted-IsSorted : (xs : List A) → IsSorted (sorted xs)
    unfolding sorted
    sorted-IsSorted [] = tt
    sorted-IsSorted (x ∷ xs) = insert-IsSorted x (sorted xs) (sorted-IsSorted xs)
