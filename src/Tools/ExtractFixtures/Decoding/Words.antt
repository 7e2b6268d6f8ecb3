-- ===== src/Tools/ExtractFixtures/Decoding/Words.antt =====
-- The words of the EVM's data: 32 bytes each, in hexadecimal, one after the other.
use native.Mathlib.Nat.{mul_assoc}
use ai_quantum.Common.{
  ℕ, zero, suc, ◌+◌, ◌-◌, ◌*◌, ◌/◌, ◌%◌, ◌^◌, ◌≤◌, ◌<◌, ◌≡◌, refl, ap, sym, ◌∙◌, ◌==◌, true,
  ==_refl, List, [], ◌∷◌, ◌++◌, length, take, drop, drop-append, drop-drop, drop_all, append_assoc,
  get_elem?, some, ok, arith,
}
use ai_quantum.Common.Int.{ℤ, pos, negsuc, pos_part, neg_part}
use ai_quantum.Common.Text.{Text, codes, starts_with-append, removeprefix-append}
use ai_quantum.Common.Text.Hex.{hex_digit}
use ai_quantum.Common.Text.Number.{
  read_from, print, read_digits, read_digits-print, digit_in-hex_digit, hex_int,
}
use ai_quantum.Tools.ExtractFixtures.Decoding.{or_raise, int_16, to_signed, slice_data}

-- The last `k` digits of `n`, before `acc`.
unfoldable pub digits_of : ℕ → ℕ → Text → Text
digits_of zero n acc = acc
digits_of (suc k) n acc = digits_of k (n / 16) (hex_digit (n % 16) ∷ acc)

unfoldable pub word : ℕ → Text
word n = digits_of 64 n []

-- A signed integer's word.
abbrev pub complement : ℤ → ℕ
complement (pos n) = n
complement (negsuc n) = 2 ^ 256 - suc n

abbrev pub concat : List Text → Text
concat [] = []
concat (w ∷ ws) = w ++ concat ws

abbrev pub AreWords : List Text → Type 0
AreWords [] = Unit
AreWords (w ∷ ws) = (length w ≡ 64) × AreWords ws

length-digits_of : (k n : ℕ) (acc : Text) → length (digits_of k n acc) ≡ k + length acc
unfolding digits_of
length-digits_of zero n acc = omega arith
length-digits_of (suc k) n acc =
    omega (arith, length-digits_of k (n / 16) (hex_digit (n % 16) ∷ acc))

pub length-word : (n : ℕ) → length (word n) ≡ 64
unfolding word
length-word n = omega (arith, length-digits_of 64 n [])

read_from-digits_of :
    (k m n : ℕ) (acc : Text)
    → n < 16 ^ k
    → read_from 16 m (digits_of k n acc) ≡ read_from 16 (m * 16 ^ k + n) acc
unfolding digits_of read_from
read_from-digits_of zero m n acc h = ap (λ (v : ℕ). read_from 16 v acc) (omega arith)
read_from-digits_of (suc k) m n acc h =
    let p : 16 ^ suc k ≡ 16 ^ k * 16 = omega arith in
    read_from-digits_of k m (n / 16) (hex_digit (n % 16) ∷ acc) (omega (arith, p))
    ∙ rw (digit_in-hex_digit 16 (omega arith) (omega arith) (n % 16) (omega arith), read_from)
        (ap (λ (v : ℕ). read_from 16 v acc) (rw p (omega (arith, mul_assoc m (16 ^ k) 16))))

take-append_whole : (n : ℕ) (w s : Text) → length w ≡ n → take n (w ++ s) ≡ w
take-append_whole zero [] s h = refl
take-append_whole zero (c ∷ w) s h = absurd (omega arith)
take-append_whole (suc n) [] s h = absurd (omega arith)
take-append_whole (suc n) (c ∷ w) s h =
    ap (λ (t : Text). c ∷ t) (take-append_whole n w s (omega arith))

drop-append_whole : (n : ℕ) (w s : Text) → length w ≡ n → drop n (w ++ s) ≡ s
drop-append_whole n w s h =
    drop-append n w s (omega arith) ∙ ap (λ (t : Text). t ++ s) (drop_all n w (omega arith))

-- The word at each place of the data.
take-drop-concat :
    (ws : List Text) (rest : Text) (i : ℕ) (w : Text)
    → AreWords ws
    → get_elem? ws i ≡ some w
    → take 64 (drop (i * 64) (concat ws ++ rest)) ≡ w
take-drop-concat [] rest i w h e = cc e
take-drop-concat (v ∷ ws) rest zero w h e =
    ap (take 64) (append_assoc v (concat ws) rest)
    ∙ take-append_whole 64 v (concat ws ++ rest) h.0
    ∙ (let same : some v ≡ some w = e in ground arith)
take-drop-concat (v ∷ ws) rest (suc i) w h e =
    let next : suc i * 64 ≡ 64 + i * 64 = omega arith in
    ap (λ (n : ℕ). take 64 (drop n ((v ++ concat ws) ++ rest))) next
    ∙ ap (take 64) (sym (drop-drop (i * 64) 64 ((v ++ concat ws) ++ rest)))
    ∙ ap (λ (t : Text). take 64 (drop (i * 64) t))
        (ap (drop 64) (append_assoc v (concat ws) rest)
          ∙ drop-append_whole 64 v (concat ws ++ rest) h.0)
    ∙ take-drop-concat ws rest i w h.1 e

pub slice_data-words :
    (ws : List Text) (rest : Text) (i : ℕ) (w : Text)
    → AreWords ws
    → get_elem? ws i ≡ some w
    → length w ≡ 64
    → slice_data (codes "0x" ++ (concat ws ++ rest)) i ≡ ok (codes "0x" ++ w)
unfolding slice_data
slice_data-words ws rest i w h e l =
    let data_hex = codes "0x" ++ (concat ws ++ rest) in
    let place : 2 + i * 64 ≡ suc (suc (i * 64)) = omega arith in
    let found : take 64 (drop (2 + i * 64) data_hex) ≡ w =
      ap (λ (n : ℕ). take 64 (drop n data_hex)) place ∙ take-drop-concat ws rest i w h e in
    let size : (length w == 64) ≡ true = rw l (==_refl 64) in
    rw (found, starts_with-append (codes "0x") (concat ws ++ rest), slice_data) (rw size refl)

read_digits-nonempty : (s : Text) → 0 < length s → read_digits 16 s ≡ read_from 16 0 s
read_digits-nonempty [] h = elim h [ ]
read_digits-nonempty (c ∷ s) h = refl

pub int_16-word : (n : ℕ) → n < 2 ^ 256 → int_16 (codes "0x" ++ word n) ≡ ok n
unfolding int_16 or_raise word read_from
int_16-word n h =
    let read : read_digits 16 (word n) ≡ some n =
      read_digits-nonempty (word n) (omega (arith, length-word n))
      ∙ read_from-digits_of 64 0 n [] (omega arith)
      ∙ ap some (omega arith) in
    rw (removeprefix-append (codes "0x") (word n), read) refl

pub int_16-hex_int : (n : ℕ) → int_16 (hex_int n) ≡ ok n
unfolding int_16 or_raise hex_int
int_16-hex_int n =
    rw
      (
        removeprefix-append (codes "0x") (print 16 n),
        read_digits-print 16 n (omega arith) (omega arith),
      )
      refl

pub to_signed-complement :
    (z : ℤ) → pos_part z < 2 ^ 255 → neg_part z ≤ 2 ^ 255 → to_signed (2 ^ 256) (complement z) ≡ z
to_signed-complement (pos n) h i = ground arith
to_signed-complement (negsuc n) h i = ground arith
