-- ===== src/Common/Float/Exact.antt =====
-- Multiples of 1/16 of moderate size are doubles, and arithmetic that stays among them is exact:
-- what IEEE 754 promises of the values that the scoring of borrow counts goes through.
use Prim.Native.Nat.{ℕ, ◌+◌, ◌*◌, ◌/◌, ◌^◌, ◌<◌}
use mathlib.Core.Path.{◌≡◌, refl}
use native.Mathlib.Omega.{arith}
use ai_quantum.Common.Float.{Float}
use ai_quantum.Common.Int.{ℤ, pos, negsuc, pos_part, neg_part, sub_ℕ, leb_ℤ, ltb_ℤ}

abbrev pub bound : ℕ
bound = 2 ^ 40

-- 16 * k
abbrev pub times16 : ℤ → ℤ
times16 (pos n) = pos (16 * n)
times16 (negsuc n) = negsuc (16 * n + 15)

-- `at k` is the double k/16.
pub record IsExact (F : Type 0) ⦃f : Float F⦄ : Type 0 where
  pub at : ℤ → F
  pub of_ℕ-at : (n : ℕ) → n < bound → f.of_ℕ n ≡ at (pos (16 * n))
  pub sub-at :
      (m n : ℕ)
      → m < bound
      → n < bound
      → f.sub (at (pos (16 * m))) (at (pos (16 * n))) ≡ at (times16 (sub_ℕ m n))
  -- An integer divided by 16.
  pub div-at :
      (k : ℤ)
      → pos_part k < bound
      → neg_part k < bound
      → f.div (at (times16 k)) (at (pos 256)) ≡ at k
  -- A multiple of 1/16 times 100.
  pub mul-at : (n : ℕ) → n < bound → f.mul (at (pos n)) (at (pos 1600)) ≡ at (pos (100 * n))
  pub lt-at :
      (a b : ℤ)
      → pos_part a < bound
      → neg_part a < bound
      → pos_part b < bound
      → neg_part b < bound
      → f.lt (at a) (at b) ≡ ltb_ℤ a b
  pub le-at :
      (a b : ℤ)
      → pos_part a < bound
      → neg_part a < bound
      → pos_part b < bound
      → neg_part b < bound
      → f.le (at a) (at b) ≡ leb_ℤ a b
  -- A multiple of 1/4 has at most two decimals, and rounding to two decimals keeps it.
  pub round2-at : (n : ℕ) → n < bound → f.round2 (at (pos (4 * n))) ≡ at (pos (4 * n))

-- The laws can be met: integers that count sixteenths.
instance abbrev pub sixteenths : Float ℤ
sixteenths = record {
  of_ℕ = λ n. pos (16 * n);
  add = λ a b. sub_ℕ (pos_part a + pos_part b) (neg_part a + neg_part b);
  sub = λ a b. sub_ℕ (pos_part a + neg_part b) (neg_part a + pos_part b);
  mul = λ a b. sub_ℕ (pos_part a * pos_part b / 16) (neg_part a * pos_part b / 16);
  div = λ a b. sub_ℕ (pos_part a * 16 / pos_part b) (neg_part a * 16 / pos_part b);
  lt = ltb_ℤ;
  le = leb_ℤ;
  round2 = λ a. a;
}

pub sub-sixteenths :
    (m n : ℕ)
    → m < bound
    → n < bound
    → sixteenths.sub (pos (16 * m)) (pos (16 * n)) ≡ times16 (sub_ℕ m n)
sub-sixteenths m n p q = ground arith

pub div-sixteenths :
    (k : ℤ) → pos_part k < bound → neg_part k < bound → sixteenths.div (times16 k) (pos 256) ≡ k
div-sixteenths (pos n) p q = ground arith
div-sixteenths (negsuc n) p q = ground arith

pub mul-sixteenths : (n : ℕ) → n < bound → sixteenths.mul (pos n) (pos 1600) ≡ pos (100 * n)
mul-sixteenths n p = ground arith

abbrev pub sixteenths_laws : IsExact ℤ
sixteenths_laws = record {
  at = λ k. k;
  of_ℕ-at = λ n h. refl;
  sub-at = sub-sixteenths;
  div-at = div-sixteenths;
  mul-at = mul-sixteenths;
  lt-at = λ a b p q r s. refl;
  le-at = λ a b p q r s. refl;
  round2-at = λ n h. refl;
}
