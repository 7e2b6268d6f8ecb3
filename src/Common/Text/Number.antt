-- ===== src/Common/Text/Number.antt =====
-- `hex(n)`, `str(n)` and `int(s, 16)`, `int(s)`. Python's `int` also takes blanks around the digits
-- and underscores between them; here such a text has no value, and neither the nodes, the mock
-- server nor the fixtures write one.
use Prim.Native.Nat.{ℕ, zero, suc, ◌+◌, ◌*◌, ◌/◌, ◌%◌, ◌<◌, ◌≤◌}
use native.Mathlib.Nat.{div-add-mod', div-lt_self, mod-lt}
use mathlib.Core.Path.{◌≡◌, refl, ap, ◌∙◌}
use mathlib.Core.Bool.{false}
use mathlib.Core.Option.{Option, none, some}
use mathlib.Core.List.{List, [], ◌∷◌, ◌++◌, map}
use native.Mathlib.Omega.{arith}
use ai_quantum.Common.Tests.{ltb, ◌==◌, if◌then◌else◌, lt→ltb, Bool-cases}
use ai_quantum.Common.Int.{ℤ, pos, negsuc}
use ai_quantum.Common.Text.{Text, codes}
use ai_quantum.Common.Text.Hex.{hex_digit, hex_value, hex_value-hex_digit}
use mathlib.Core.Logic.{inl, inr}

module _ (base : ℕ) where
  -- The digits of `n`, most significant first, before `acc`. The fuel is above `n`.
  unfoldable pub digits_acc : ℕ → ℕ → List ℕ → List ℕ
  digits_acc zero n acc = acc
  digits_acc (suc f) n acc =
      let more = digits_acc f (n / base) ((n % base) ∷ acc) in if ltb n base then n ∷ acc else more

  unfoldable pub of_digits : ℕ → List ℕ → ℕ
  of_digits n [] = n
  of_digits n (d ∷ ds) = of_digits (n * base + d) ds

  -- A digit's value, below the base.
  unfoldable pub digit_in : ℕ → Option ℕ
  unfolding hex_value
  digit_in c = elim (hex_value c) [ none ↦ none | some d ↦ if ltb d base then some d else none ]

  unfoldable pub read_from : ℕ → Text → Option ℕ
  unfolding digit_in
  read_from n [] = some n
  read_from n (c ∷ s) = elim (digit_in c) [ none ↦ none | some d ↦ read_from (n * base + d) s ]

  abbrev pub read_digits : Text → Option ℕ
  read_digits [] = none
  read_digits (c ∷ s) = read_from 0 (c ∷ s)

  unfoldable pub print : ℕ → Text
  unfolding digits_acc hex_digit
  print n = map hex_digit (digits_acc (suc n) n [])

  abbrev AreDigits : List ℕ → Type 0
  AreDigits [] = Unit
  AreDigits (d ∷ ds) = (d < base) × AreDigits ds

  module _ (low : 1 < base) (high : base ≤ 16) where
    pub digit_in-hex_digit : (d : ℕ) → d < base → digit_in (hex_digit d) ≡ some d
    unfolding digit_in
    digit_in-hex_digit d h =
        rw (hex_value-hex_digit d (omega arith), digit_in) (rw (lt→ltb d base h))

    read_from-map :
        (ds : List ℕ) (n : ℕ)
        → AreDigits ds
        → read_from n (map hex_digit ds) ≡ some (of_digits n ds)
    unfolding read_from of_digits
    read_from-map [] n h = refl
    read_from-map (d ∷ ds) n h =
        rw (digit_in-hex_digit d h.0, read_from) (read_from-map ds (n * base + d) h.1)

    quotient-lt : (n : ℕ) → ltb n base ≡ false → n / base < n
    quotient-lt n h = div-lt_self (ground arith) low

    of_digits-digits_acc :
        (f n : ℕ) (acc : List ℕ) → n < f → of_digits 0 (digits_acc f n acc) ≡ of_digits n acc
    unfolding of_digits digits_acc
    of_digits-digits_acc zero n acc h = elim h [ ]
    of_digits-digits_acc (suc f) n acc h = elim (Bool-cases (ltb n base)) [
      | inl one ↦ rw one (ap (λ (k : ℕ). of_digits k acc) (omega arith))
      | inr many ↦ rw many (
          of_digits-digits_acc f (n / base) ((n % base) ∷ acc) (omega (arith, quotient-lt n many))
          ∙ ap (λ (k : ℕ). of_digits k acc) (div-add-mod' n base))
    ]

    digits_acc-AreDigits :
        (f n : ℕ) (acc : List ℕ) → n < f → AreDigits acc → AreDigits (digits_acc f n acc)
    unfolding digits_acc
    digits_acc-AreDigits zero n acc h k = elim h [ ]
    digits_acc-AreDigits (suc f) n acc h k = elim (Bool-cases (ltb n base)) [
      | inl one ↦ rw one (ground arith, k)
      | inr many ↦ rw many (
          digits_acc-AreDigits f (n / base) ((n % base) ∷ acc) (omega (arith, quotient-lt n many))
            (mod-lt n (omega arith), k))
    ]

    -- Reading what was printed gives the number back.
    pub read_from-print : (n : ℕ) → read_from 0 (print n) ≡ some n
    unfolding print of_digits
    read_from-print n =
        read_from-map (digits_acc (suc n) n []) 0
          (digits_acc-AreDigits (suc n) n [] (omega arith) tt)
        ∙ ap some (of_digits-digits_acc (suc n) n [] (omega arith))

  abbrev IsCons : List ℕ → Type 0
  IsCons xs = (d : ℕ) × (ds : List ℕ) × (xs ≡ d ∷ ds)

  digits_acc-IsCons : (f n a : ℕ) (acc : List ℕ) → IsCons (digits_acc f n (a ∷ acc))
  unfolding digits_acc
  digits_acc-IsCons zero n a acc = (a, acc, refl)
  digits_acc-IsCons (suc f) n a acc = elim (Bool-cases (ltb n base)) [
    | inl one ↦ (n, a ∷ acc, rw one)
    | inr many ↦ rw many (digits_acc-IsCons f (n / base) (n % base) (a ∷ acc))
  ]

  digits-IsCons : (n : ℕ) → IsCons (digits_acc (suc n) n [])
  unfolding digits_acc
  digits-IsCons n = elim (Bool-cases (ltb n base)) [
    | inl one ↦ (n, [], rw one)
    | inr many ↦ rw many (digits_acc-IsCons n (n / base) (n % base) [])
  ]

  read_digits-print_from : (n : ℕ) → read_digits (print n) ≡ read_from 0 (print n)
  unfolding print
  read_digits-print_from n = let (d, ds, e) = digits-IsCons n in rw e

pub read_digits-print :
    (base n : ℕ) → 1 < base → base ≤ 16 → read_digits base (print base n) ≡ some n
read_digits-print base n low high = read_digits-print_from base n ∙ read_from-print base low high n

-- `hex(n)`.
unfoldable pub hex_int : ℕ → Text
hex_int n = codes "0x" ++ print 16 n

-- `str(n)`.
unfoldable pub str_int : ℤ → Text
str_int (pos n) = print 10 n
str_int (negsuc n) = b'-' ∷ print 10 (suc n)

abbrev negate : Option ℕ → Option ℤ
negate none = none
negate (some zero) = some (pos 0)
negate (some (suc n)) = some (negsuc n)

abbrev positive : Option ℕ → Option ℤ
positive none = none
positive (some n) = some (pos n)

-- `int(s)`: `none` is its `ValueError`.
unfoldable pub int_of : Text → Option ℤ
int_of [] = none
int_of (c ∷ s) = if c == b'-' then negate (read_digits 10 s) else positive (read_digits 10 (c ∷ s))

int_of-digits :
    (c : ℕ) (s : Text) (n : ℕ)
    → (c == b'-') ≡ false
    → read_digits 10 (c ∷ s) ≡ some n
    → int_of (c ∷ s) ≡ some (pos n)
unfolding int_of
int_of-digits c s n h k = rw (h, k) refl

hex_digit_not_minus : (d : ℕ) → (hex_digit d == b'-') ≡ false
unfolding hex_digit
hex_digit_not_minus d = ground arith

-- What `str` writes of a number that is not below zero, `int` reads.
pub int_of-print : (n : ℕ) → int_of (print 10 n) ≡ some (pos n)
unfolding print
int_of-print n =
    let (d, ds, e) = digits-IsCons 10 n in
    let read = read_digits-print 10 n (omega arith) (omega arith) in
    rw e (int_of-digits (hex_digit d) (map hex_digit ds) n (hex_digit_not_minus d) (rw e at read))
