-- ===== src/Common/Sorting.antt =====
-- `list.sort(key=...)` with a key of two numbers: a stable sort, and what makes it one.
use Prim.Native.Nat.{ℕ}
use mathlib.Core.Path.{◌≡◌, refl, ap, ◌∙◌}
use mathlib.Core.Bool.{Bool, true, false, ◌&&◌, ◌||◌}
use mathlib.Core.Logic.{inl, inr}
use mathlib.Core.List.{List, [], ◌∷◌}
use native.Mathlib.Omega.{arith}
use ai_quantum.Common.Dict.Keys.{All}
use ai_quantum.Common.Tests.{ltb, leb, ◌==◌, if◌then◌else◌, Bool-cases}

abbrev pub Key : Type 0
Key = ℕ × ℕ

-- The order of tuples.
abbrev pub key_leb : Key → Key → Bool
key_leb (a, b) (c, d) = ltb a c || (a == c && leb b d)

abbrev pub key_eqb : Key → Key → Bool
key_eqb (a, b) (c, d) = a == c && b == d

module _ {A : Type 0} (key : A → Key) where
  -- In front of the first that is not below it, so that equals keep their order.
  unfoldable pub insert : A → List A → List A
  insert x [] = x ∷ []
  insert x (y ∷ ys) =
      let rest = insert x ys in if key_leb (key x) (key y) then x ∷ y ∷ ys else y ∷ rest

  unfoldable pub sort : List A → List A
  sort [] = []
  sort (x ∷ xs) = insert x (sort xs)

  abbrev pub AreAbove : Key → List A → Type 0
  AreAbove k [] = Unit
  AreAbove k (x ∷ xs) = (key_leb k (key x) ≡ true) × AreAbove k xs

  abbrev pub IsSorted : List A → Type 0
  IsSorted [] = Unit
  IsSorted (x ∷ xs) = AreAbove (key x) xs × IsSorted xs

  -- The items of one key, in order.
  unfoldable pub of_key : Key → List A → List A
  of_key k [] = []
  of_key k (x ∷ xs) = let rest = of_key k xs in if key_eqb (key x) k then x ∷ rest else rest

key_leb_trans : (j k l : Key) → key_leb j k ≡ true → key_leb k l ≡ true → key_leb j l ≡ true
key_leb_trans (a, b) (c, d) (e, f) h i = ground arith

key_leb_total : (j k : Key) → key_leb j k ≡ false → key_leb k j ≡ true
key_leb_total (a, b) (c, d) h = ground arith

key_differs : (i j k : Key) → key_leb i j ≡ false → key_eqb j k ≡ true → key_eqb i k ≡ false
key_differs (a, b) (c, d) (e, f) h i = ground arith

module _ {A : Type 0} (key : A → Key) where
  AreAbove-le :
      (j k : Key) (xs : List A) → key_leb j k ≡ true → AreAbove key k xs → AreAbove key j xs
  AreAbove-le j k [] h i = tt
  AreAbove-le j k (x ∷ xs) h i = (key_leb_trans j k (key x) h i.0, AreAbove-le j k xs h i.1)

  insert-AreAbove :
      (k : Key) (x : A) (xs : List A)
      → key_leb k (key x) ≡ true
      → AreAbove key k xs
      → AreAbove key k (insert key x xs)
  unfolding insert
  insert-AreAbove k x [] h i = (h, tt)
  insert-AreAbove k x (y ∷ ys) h i = elim (Bool-cases (key_leb (key x) (key y))) [
    | inl before ↦ rw before (h, (i.0, i.1))
    | inr after ↦ rw after (i.0, insert-AreAbove k x ys h i.1)
  ]

  insert-IsSorted : (x : A) (xs : List A) → IsSorted key xs → IsSorted key (insert key x xs)
  unfolding insert
  insert-IsSorted x [] h = (tt, tt)
  insert-IsSorted x (y ∷ ys) h = elim (Bool-cases (key_leb (key x) (key y))) [
    | inl before ↦ rw before ((before, AreAbove-le (key x) (key y) ys before h.0), (h.0, h.1))
    | inr after ↦ rw after (
      insert-AreAbove (key y) x ys (key_leb_total (key x) (key y) after) h.0,
      insert-IsSorted x ys h.1,
    )
  ]

  pub sort-IsSorted : (xs : List A) → IsSorted key (sort key xs)
  unfolding sort
  sort-IsSorted [] = tt
  sort-IsSorted (x ∷ xs) = insert-IsSorted x (sort key xs) (sort-IsSorted xs)

  of_key-insert :
      (k : Key) (x : A) (xs : List A) → of_key key k (insert key x xs) ≡ of_key key k (x ∷ xs)
  unfolding insert of_key
  of_key-insert k x [] = refl
  of_key-insert k x (y ∷ ys) = elim (Bool-cases (key_leb (key x) (key y))) [
    | inl before ↦ rw before
    | inr after ↦ elim (Bool-cases (key_eqb (key y) k)) [
      | inl same ↦
          let differs = key_differs (key x) (key y) k after same in
          let ih = of_key-insert k x ys in
          rw (after, same, differs) (ap (λ (l : List A). y ∷ l) (rw differs at ih))
      | inr other ↦ rw (after, other) (of_key-insert k x ys)
    ]
  ]

  -- Sorting keeps the items of each key and their order.
  pub of_key-sort : (k : Key) (xs : List A) → of_key key k (sort key xs) ≡ of_key key k xs
  unfolding sort of_key
  of_key-sort k [] = refl
  of_key-sort k (x ∷ xs) = of_key-insert k x (sort key xs) ∙ rw (of_key-sort k xs)

module _ {A : Type 0} (key : A → Key) where
  insert-above : (x : A) (xs : List A) → AreAbove key (key x) xs → insert key x xs ≡ x ∷ xs
  unfolding insert
  insert-above x [] h = refl
  insert-above x (y ∷ ys) h = rw h.0 refl

  -- A sorted list is left as it is.
  pub sort-sorted : (xs : List A) → IsSorted key xs → sort key xs ≡ xs
  unfolding sort
  sort-sorted [] h = refl
  sort-sorted (x ∷ xs) h = rw (sort-sorted xs h.1) (insert-above x xs h.0)

  insert-All : (P : A → Type 0) (x : A) (xs : List A) → P x → All P xs → All P (insert key x xs)
  unfolding insert
  insert-All P x [] h k = (h, tt)
  insert-All P x (y ∷ ys) h k = elim (Bool-cases (key_leb (key x) (key y))) [
    | inl before ↦ rw before (h, k)
    | inr after ↦ rw after (k.0, insert-All P x ys h k.1)
  ]

  -- Sorting keeps what all items have.
  pub sort-All : (P : A → Type 0) (xs : List A) → All P xs → All P (sort key xs)
  unfolding sort
  sort-All P [] h = tt
  sort-All P (x ∷ xs) h = insert-All P x (sort key xs) h.0 (sort-All P xs h.1)
