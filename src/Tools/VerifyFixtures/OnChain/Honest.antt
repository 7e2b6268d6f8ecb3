-- ===== src/Tools/VerifyFixtures/OnChain/Honest.antt =====
-- The on-chain check where the API tells the truth.
use ai_quantum.Common.{
  ℕ, zero, suc, ◌≡◌, ◌↔◌, ◌⊎◌, refl, ap, sym, ◌∙◌, Outcome-cases, inl, inr, List, [], ◌∷◌, Option,
  none, some, ok, err, arith,
}
use ai_quantum.Common.Text.{Text}
use ai_quantum.Common.Text.Number.{hex_int}
use ai_quantum.Common.Dict.Keys.{All}
use ai_quantum.Ingestion.Event.{TickDataEvent}
use ai_quantum.Tools.ExtractFixtures.Decoding.Words.{int_16-hex_int}
use ai_quantum.Tools.VerifyFixtures.OnChain.{
  Reply, transaction, text, neither, failed, as_block, block_of, compare_block, Counted, Failure,
  retries_spent, detail_of, then_row, attempts, tx_block_from_etherscan, check_sample,
}

-- What the chain knows of a hash: no transaction, or one with its block, which a pending one has not.
pub data Standing : Type 0 where
  unknown : Standing
  known : Option ℕ → Standing

Standing-cases : (s : Standing) → (s ≡ unknown) ⊎ ((block : Option ℕ) × (s ≡ known block))
Standing-cases unknown = inl refl
Standing-cases (known block) = inr (block, refl)

-- How the API writes it: `null` for an unknown hash.
abbrev pub truth : Standing → Reply
truth unknown = neither
truth (known none) = transaction none
truth (known (some block)) = transaction (some (hex_int block))

-- A reply after which the code tries again.
abbrev pub IsTransient : Reply → Type 0
IsTransient (transaction block_hex) = ⊥
IsTransient (text s) = Unit
IsTransient neither = Unit
IsTransient (failed e) = Unit

-- The API says what the chain knows or fails for a moment; on a transaction that there is, it fails
-- at most twice running.
pub record IsHonest (chain : Text → Standing) (respond : ℕ → Text → Reply) : Type 0 where
  pub says : (n : ℕ) (tx : Text) → IsTransient (respond n tx) ⊎ (respond n tx ≡ truth (chain tx))
  pub recovers :
      (n : ℕ) (tx : Text) (block : Option ℕ)
      → chain tx ≡ known block
      → (respond n tx ≡ truth (chain tx))
        ⊎ ((respond (suc n) tx ≡ truth (chain tx)) ⊎ (respond (suc (suc n)) tx ≡ truth (chain tx)))

-- The chain has the row's transaction in the row's block.
abbrev pub IsOnChain : (Text → Standing) → TickDataEvent → Type 0
IsOnChain chain row = chain row.tx_hash ≡ known (some row.block_number)

block_of-hex_int : (n : ℕ) → block_of (some (hex_int n)) ≡ ok (some n)
unfolding block_of hex_int
block_of-hex_int n = ap as_block (int_16-hex_int n)

module _ (respond : ℕ → Text → Reply) where
  attempts-truth :
      (answer : Option ℕ) (left calls : ℕ) (tx : Text) (l e : Option Text)
      → respond calls tx ≡ truth (known answer)
      → (attempts respond (suc left) calls tx l e).0 ≡ ok answer
  unfolding attempts block_of
  attempts-truth none left calls tx l e h = rw (h, attempts) refl
  attempts-truth (some n) left calls tx l e h = rw (h, attempts) (block_of-hex_int n)

  -- The next attempt, with what is remembered by then.
  abbrev NextAttempt : ℕ → ℕ → Text → Counted (Option ℕ) → Type 0
  NextAttempt left calls tx counted =
      (l e : Option Text) × (counted ≡ attempts respond left (suc calls) tx l e)

  attempts-again :
      (left calls : ℕ) (tx : Text) (l e : Option Text) (reply : Reply)
      → respond calls tx ≡ reply
      → IsTransient reply
      → NextAttempt left calls tx (attempts respond (suc left) calls tx l e)
  unfolding attempts
  attempts-again left calls tx l e (transaction b) h t = absurd t
  attempts-again left calls tx l e (text s) h t = (some s, e, rw (h, attempts) refl)
  attempts-again left calls tx l e neither h t = (l, e, rw (h, attempts) refl)
  attempts-again left calls tx l e (failed s) h t = (l, some s, rw (h, attempts) refl)

  IsTransient-truth :
      (s : Standing) (reply : Reply) → s ≡ unknown → reply ≡ truth s → IsTransient reply
  IsTransient-truth unknown (transaction b) e h = cc h
  IsTransient-truth unknown (text s) e h = tt
  IsTransient-truth unknown neither e h = tt
  IsTransient-truth unknown (failed s) e h = tt
  IsTransient-truth (known block) reply e h = cc e

  module _ (chain : Text → Standing) (honest : IsHonest chain respond) where
    -- One attempt answers if it or a later one, which must, does.
    attempts-later :
        (block : Option ℕ) (left calls : ℕ) (tx : Text) (l e : Option Text)
        → chain tx ≡ known block
        → ((l' e' : Option Text) → (attempts respond left (suc calls) tx l' e').0 ≡ ok block)
        → (attempts respond (suc left) calls tx l e).0 ≡ ok block
    attempts-later block left calls tx l e k later = elim (honest.says calls tx) [
      | inr now ↦ attempts-truth block left calls tx l e (now ∙ ap truth k)
      | inl wait ↦
          let (l', e', next) = attempts-again left calls tx l e (respond calls tx) refl wait in
          rw next (later l' e')
    ]

    tx_block-known :
        (calls : ℕ) (tx : Text) (block : Option ℕ)
        → chain tx ≡ known block
        → (tx_block_from_etherscan respond calls tx).0 ≡ ok block
    unfolding tx_block_from_etherscan
    tx_block-known calls tx block k = elim (honest.recovers calls tx block k) [
      | inl first ↦ attempts-truth block 2 calls tx none none (first ∙ ap truth k)
      | inr (inl second) ↦
          attempts-later block 2 calls tx none none k
            (λ l e. attempts-truth block 1 (suc calls) tx l e (second ∙ ap truth k))
      | inr (inr third) ↦ attempts-later block 2 calls tx none none k (λ l e.
          attempts-later block 1 (suc calls) tx l e k
            (λ l' e'. attempts-truth block 0 (suc (suc calls)) tx l' e' (third ∙ ap truth k)))
    ]

    -- The code asks again for a transaction that there is not, until it gives up.
    attempts-unknown :
        (left calls : ℕ) (tx : Text) (l e : Option Text)
        → chain tx ≡ unknown
        → (x : Failure) × ((attempts respond left calls tx l e).0 ≡ err x)
    unfolding attempts
    attempts-unknown zero calls tx l e k = (retries_spent tx (detail_of l e), refl)
    attempts-unknown (suc left) calls tx l e k =
        let wait : IsTransient (respond calls tx) = elim (honest.says calls tx) [
          | inl now ↦ now
          | inr null ↦ IsTransient-truth (chain tx) (respond calls tx) k null
        ] in
        let (l', e', next) = attempts-again left calls tx l e (respond calls tx) refl wait in
        let (x, gave_up) = attempts-unknown left (suc calls) tx l' e' k in
        (x, ap (λ (c : Counted (Option ℕ)). c.0) next ∙ gave_up)

    compare_block-IsOnChain :
        (row : TickDataEvent) (answer : Option ℕ)
        → (compare_block row answer ≡ ok tt) ↔ (answer ≡ some row.block_number)
    unfolding compare_block
    compare_block-IsOnChain row none = (λ h. cc h, λ h. cc h)
    compare_block-IsOnChain row (some n) = (λ h. ground (arith, h), λ h. ground (arith, h))

    abbrev Agrees : TickDataEvent → List TickDataEvent → Counted (Unit {0}) → Type 0
    Agrees row rows out = (out.0 ≡ ok tt) ↔ (IsOnChain chain row × All (IsOnChain chain) rows)

    then_row-known :
        (row : TickDataEvent) (rows : List TickDataEvent) (block : Option ℕ)
        (found : Counted (Option ℕ))
        → chain row.tx_hash ≡ known block
        → found.0 ≡ ok block
        → ((c : ℕ) → ((check_sample respond c rows).0 ≡ ok tt) ↔ All (IsOnChain chain) rows)
        → Agrees row rows (then_row (λ c. check_sample respond c rows) row found)
    then_row-known row rows block (err e, calls) k f ih =
        absurd (let bad : err e ≡ ok block = f in cc bad)
    then_row-known row rows block (ok remote, calls) k f ih =
        let same : remote ≡ block = ground (arith, f) in
        let at : chain row.tx_hash ≡ known remote = k ∙ ap known (sym same) in
        let one = compare_block-IsOnChain row remote in
        elim (Outcome-cases (compare_block row remote)) [
          | inl (e, bad) ↦
              rw bad (λ h. cc h, λ h. absurd (cc (bad, one.1 (ground (arith, at, h.0)))))
          | inr (u, good) ↦
              rw good (λ h. (at ∙ ap known (one.0 good), (ih calls).0 h), λ h. (ih calls).1 h.1)
        ]

    then_row-unknown :
        (row : TickDataEvent) (rows : List TickDataEvent) (found : Counted (Option ℕ)) (x : Failure)
        → chain row.tx_hash ≡ unknown
        → found.0 ≡ err x
        → Agrees row rows (then_row (λ c. check_sample respond c rows) row found)
    then_row-unknown row rows (ok remote, calls) x k f = absurd (cc f)
    then_row-unknown row rows (err e, calls) x k f = (λ h. cc h, λ h. absurd (cc (k, h.0)))

    then_row-IsOnChain :
        (calls : ℕ) (row : TickDataEvent) (rows : List TickDataEvent)
        → ((c : ℕ) → ((check_sample respond c rows).0 ≡ ok tt) ↔ All (IsOnChain chain) rows)
        → Agrees row rows (
            then_row
              (λ c. check_sample respond c rows)
              row
              (tx_block_from_etherscan respond calls row.tx_hash))
    unfolding tx_block_from_etherscan
    then_row-IsOnChain calls row rows ih = elim (Standing-cases (chain row.tx_hash)) [
      | inl missing ↦
          let (x, gave_up) = attempts-unknown 3 calls row.tx_hash none none missing in
          then_row-unknown row rows (tx_block_from_etherscan respond calls row.tx_hash) x missing
            gave_up
      | inr (block, there) ↦
          then_row-known row rows block (tx_block_from_etherscan respond calls row.tx_hash) there
            (tx_block-known calls row.tx_hash block there) ih
    ]

    pub check_sample-IsOnChain :
        (calls : ℕ) (rows : List TickDataEvent)
        → ((check_sample respond calls rows).0 ≡ ok tt) ↔ All (IsOnChain chain) rows
    unfolding check_sample
    check_sample-IsOnChain calls [] = (λ h. tt, λ h. refl)
    check_sample-IsOnChain calls (row ∷ rows) =
        then_row-IsOnChain calls row rows (λ c. check_sample-IsOnChain c rows)
