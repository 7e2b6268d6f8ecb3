-- ===== src/Tools/ExtractFixtures/Etherscan/Spans.antt =====
-- The logs of ranges of blocks.
use ai_quantum.Common.{
  ℕ, zero, suc, ◌+◌, ◌≤◌, ◌<◌, ◌≡◌, refl, ap, sym, ◌∙◌, inl, inr, leb, List, [], ◌++◌, append_assoc,
  length, length-append, Bool-cases, arith, leb→le,
}
use ai_quantum.Common.Text.{Text}
use ai_quantum.Tools.ExtractFixtures.{Log}

-- The logs of a contract and a topic, by block, and those of the `count` blocks from `n` on.
abbrev pub History : Type 0
History = Text → Text → ℕ → List Log

abbrev pub span : (ℕ → List Log) → ℕ → ℕ → List Log
span h n zero = []
span h n (suc count) = h n ++ span h (suc n) count

pub span-add : (h : ℕ → List Log) (n a b : ℕ) → span h n (a + b) ≡ span h n a ++ span h (n + a) b
span-add h n zero b =
    let count : 0 + b ≡ b = omega arith in
    let start : n + 0 ≡ n = omega arith in rw (count, start) refl
span-add h n (suc a) b =
    let count : suc a + b ≡ suc (a + b) = omega arith in
    let start : n + suc a ≡ suc n + a = omega arith in
    rw (count, start)
      (ap (λ (t : List Log). h n ++ t) (span-add h (suc n) a b)
        ∙ sym (append_assoc (h n) (span h (suc n) a) (span h (suc n + a) b)))

-- A block's logs are among those of a range that holds it.
pub block-le-span :
    (h : ℕ → List Log) (m n c : ℕ) → m ≤ n → n < m + c → length (h n) ≤ length (span h m c)
block-le-span h m n zero i j = absurd (omega arith)
block-le-span h m n (suc c) i j = elim (Bool-cases (leb n m)) [
  | inl here ↦
      let e : n ≡ m = omega (arith, leb→le n m here) in
      rw e (omega (arith, length-append (h m) (span h (suc m) c)))
  | inr later ↦ omega (
    arith,
    length-append (h m) (span h (suc m) c),
    block-le-span h (suc m) n c (ground arith) (omega arith),
  )
]
