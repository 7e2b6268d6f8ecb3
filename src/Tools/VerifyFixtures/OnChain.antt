-- ===== src/Tools/VerifyFixtures/OnChain.antt =====
-- The on-chain check of tools/verify_fixtures.py. The API is a function from the number of calls made
-- so far and the hash to the reply; the number is the only state. Pauses are left out. A body that
-- is not a JSON object is not modelled.
pub mod Honest
use ai_quantum.Common.{
  ℕ, zero, suc, ◌==◌, if◌then◌else◌, List, [], ◌∷◌, length, min, Option, none, some, Outcome, ok,
  err,
}
use ai_quantum.Common.Text.{Text, codes}
use ai_quantum.Ingestion.Event.{TickDataEvent}
use ai_quantum.Tools.ExtractFixtures.Decoding.{DecodeError, int_16}
use ai_quantum.Tools.VerifyFixtures.{VerifyError}

-- What a request gives: `body.get("result")`, of which a dictionary is its `blockNumber`, or a
-- `requests.RequestException` by its text.
pub data Reply : Type 0 where
  transaction : Option Text → Reply
  text : Text → Reply
  neither : Reply
  failed : Text → Reply

-- What is raised while a file is checked, up to its wording.
pub data Failure : Type 0 where
  refused : VerifyError → Failure
  not_hexadecimal : DecodeError → Failure
  retries_spent : Text → Text → Failure
  no_result : Text → Failure
  other_block : ℕ → ℕ → Text → Failure
  unreadable : Failure

abbrev pub max_retries : ℕ
max_retries = 3

abbrev pub sample_size : ℕ
sample_size = 10

-- `last_rate_limit or (str(last_exc) if last_exc else "unknown transient error")`.
abbrev pub of_exception : Option Text → Text
of_exception none = codes "unknown transient error"
of_exception (some e) = e

unfoldable pub detail_of : Option Text → Option Text → Text
detail_of none last_exc = of_exception last_exc
detail_of (some []) last_exc = of_exception last_exc
detail_of (some (c ∷ s)) last_exc = c ∷ s

-- `int(block_hex, 16) if block_hex else None`.
abbrev pub as_block : Outcome DecodeError ℕ → Outcome Failure (Option ℕ)
as_block (err e) = err (not_hexadecimal e)
as_block (ok n) = ok (some n)

unfoldable pub block_of : Option Text → Outcome Failure (Option ℕ)
block_of none = ok none
block_of (some []) = ok none
block_of (some (c ∷ s)) = as_block (int_16 (c ∷ s))

-- A check of one row against the answer.
unfoldable pub compare_block : TickDataEvent → Option ℕ → Outcome Failure (Unit {0})
compare_block row none = err (no_result row.tx_hash)
compare_block row (some remote) =
    if remote == row.block_number
    then ok tt
    else err (other_block remote row.block_number row.tx_hash)

-- The result, and the number of calls made by then.
abbrev pub Counted : Type 0 → Type 0
Counted A = Outcome Failure A × ℕ

abbrev pub then_rest :
    (ℕ → Counted (Unit {0})) → ℕ → Outcome Failure (Unit {0}) → Counted (Unit {0})
then_rest rest calls (err e) = (err e, calls)
then_rest rest calls (ok done) = rest calls

abbrev pub then_row :
    (ℕ → Counted (Unit {0})) → TickDataEvent → Counted (Option ℕ) → Counted (Unit {0})
then_row rest row (err e, calls) = (err e, calls)
then_row rest row (ok remote, calls) = then_rest rest calls (compare_block row remote)

module _ (respond : ℕ → Text → Reply) where
  -- The attempts that are left, and the two things remembered.
  unfoldable pub attempts : ℕ → ℕ → Text → Option Text → Option Text → Counted (Option ℕ)
  unfolding detail_of block_of
  attempts zero calls tx_hash last_rate_limit last_exc =
      (err (retries_spent tx_hash (detail_of last_rate_limit last_exc)), calls)
  attempts (suc left) calls tx_hash last_rate_limit last_exc = elim (respond calls tx_hash) [
    | transaction block_hex ↦ (block_of block_hex, suc calls)
    | text s ↦ attempts left (suc calls) tx_hash (some s) last_exc
    | neither ↦ attempts left (suc calls) tx_hash last_rate_limit last_exc
    | failed e ↦ attempts left (suc calls) tx_hash last_rate_limit (some e)
  ]

  -- `_tx_block_from_etherscan`.
  unfoldable pub tx_block_from_etherscan : ℕ → Text → Counted (Option ℕ)
  unfolding attempts
  tx_block_from_etherscan calls tx_hash = attempts max_retries calls tx_hash none none

  -- The loop over the sample.
  unfoldable pub check_sample : ℕ → List TickDataEvent → Counted (Unit {0})
  unfolding tx_block_from_etherscan compare_block
  check_sample calls [] = (ok tt, calls)
  check_sample calls (row ∷ rows) =
      then_row (λ c. check_sample c rows) row (tx_block_from_etherscan calls row.tx_hash)

  -- `_cross_check`, for a given `rng.sample`.
  unfoldable pub cross_check :
      (List TickDataEvent → ℕ → List TickDataEvent) → ℕ → List TickDataEvent → Counted (Unit {0})
  unfolding check_sample
  cross_check sample calls rows = check_sample calls (sample rows (min sample_size (length rows)))
