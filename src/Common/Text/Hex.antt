-- ===== src/Common/Text/Hex.antt =====
-- `bytes.hex()` and `bytes.fromhex`. A byte is a number; `fromhex` reads digits of either case and
-- nothing else.
use Prim.Native.Nat.{ℕ, ◌+◌, ◌-◌, ◌*◌, ◌/◌, ◌%◌, ◌<◌}
use mathlib.Core.Path.{◌≡◌, refl, ap}
use mathlib.Core.Bool.{◌&&◌}
use mathlib.Core.Option.{Option, none, some}
use mathlib.Core.List.{List, [], ◌∷◌, ◌++◌}
use native.Mathlib.Omega.{arith}
use ai_quantum.Common.Tests.{leb, ltb, if◌then◌else◌}
use ai_quantum.Common.Text.{Text, lower, lower_char}

unfoldable pub hex_digit : ℕ → ℕ
hex_digit d = if ltb d 10 then d + 48 else d + 87

unfoldable pub hex_value : ℕ → Option ℕ
hex_value c =
    if leb b'0' c && leb c b'9'
    then some (c - 48)
    else if leb b'a' c && leb c b'f'
    then some (c - 87)
    else if leb b'A' c && leb c b'F'
    then some (c - 55)
    else none

unfoldable pub hex : List ℕ → Text
unfolding hex_digit
hex [] = []
hex (b ∷ bs) = hex_digit (b / 16) ∷ hex_digit (b % 16) ∷ hex bs

abbrev pair_value : Option ℕ → Option ℕ → Option ℕ
pair_value (some h) (some l) = some (h * 16 + l)
pair_value _ _ = none

abbrev cons? : Option ℕ → Option (List ℕ) → Option (List ℕ)
cons? (some b) (some bs) = some (b ∷ bs)
cons? _ _ = none

unfoldable pub fromhex : Text → Option (List ℕ)
unfolding hex_value
fromhex [] = some []
fromhex (c ∷ []) = none
fromhex (c ∷ d ∷ s) = cons? (pair_value (hex_value c) (hex_value d)) (fromhex s)

abbrev pub AreBytes : List ℕ → Type 0
AreBytes [] = Unit
AreBytes (b ∷ bs) = (b < 256) × AreBytes bs

pub hex_value-hex_digit : (d : ℕ) → d < 16 → hex_value (hex_digit d) ≡ some d
unfolding hex_value hex_digit
hex_value-hex_digit d h = ground arith

-- Reading what was printed gives the bytes back.
pub fromhex-hex : (bs : List ℕ) → AreBytes bs → fromhex (hex bs) ≡ some bs
unfolding fromhex hex
fromhex-hex [] h = refl
fromhex-hex (b ∷ bs) h =
    rw
      (
        hex_value-hex_digit (b / 16) (omega arith),
        hex_value-hex_digit (b % 16) (omega arith),
        fromhex-hex bs h.1,
      )
      (ap (λ (n : ℕ). some (n ∷ bs)) (omega arith))

pub hex-append : (as' bs : List ℕ) → hex (as' ++ bs) ≡ hex as' ++ hex bs
unfolding hex
hex-append [] bs = refl
hex-append (a ∷ as') bs =
    ap (λ (t : Text). hex_digit (a / 16) ∷ hex_digit (a % 16) ∷ t) (hex-append as' bs)

lower-hex_digit : (d : ℕ) → d < 16 → lower_char (hex_digit d) ≡ hex_digit d
unfolding lower_char hex_digit
lower-hex_digit d h = ground arith

-- The digits are lower-case.
pub lower-hex : (bs : List ℕ) → AreBytes bs → lower (hex bs) ≡ hex bs
unfolding lower hex
lower-hex [] h = refl
lower-hex (b ∷ bs) h = cc (
  lower-hex_digit (b / 16) (omega arith),
  lower-hex_digit (b % 16) (omega arith),
  lower-hex bs h.1,
)
