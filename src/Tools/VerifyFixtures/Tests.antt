-- ===== src/Tools/VerifyFixtures/Tests.antt =====
-- A fixture of one row, which is too short.
use ai_quantum.Common.{
  ℕ, suc, ◌%◌, ◌==◌, ◌≢◌, take, if◌then◌else◌, inl, inr, Bool-cases, false, List, Option, arith,
  ◌≡◌, ◌↔◌, refl, Bool, true, [], ◌∷◌, some, ok, err,
}
use ai_quantum.Common.Text.{Text, codes, text_eq, lower, removeprefix}
use ai_quantum.Common.Text.Number.{int_of, read_from, hex_int, print}
use ai_quantum.Common.Set.{contains, add}
use ai_quantum.Ingestion.Event.{TickDataEvent}
use ai_quantum.Tools.MockWss.Fixture.{Raw, cast_row}
use ai_quantum.Tools.MockWss.Fixture.Loaded.{AreCast}
use ai_quantum.Tools.ExtractFixtures.Decoding.{int_16}
use ai_quantum.Tools.VerifyFixtures.{
  verify_file, is_missing, key_eq, few_rows, bad_row, duplicate_key, empty_amount0,
}
use ai_quantum.Tools.VerifyFixtures.OnChain.{
  Reply, text, failed, tx_block_from_etherscan, retries_spent,
}
use ai_quantum.Tools.VerifyFixtures.OnChain.Honest.{Standing, unknown, known, IsHonest, truth}
use ai_quantum.Tools.VerifyFixtures.Main.{File, main}
use ai_quantum.Tools.VerifyFixtures.Main.Verdict.{ArePassed, has_api_key, main-zero}
use ai_quantum.Tools.VerifyFixtures.Quality.{IsGood, verify_file-IsGood}

abbrev row_with : Text → Raw
row_with amount = record {
  block_number = some (codes "17");
  log_index = some (codes "3");
  block_timestamp = codes "2023-03-11T00:00:00Z";
  protocol = codes "aave_v3";
  event_type = codes "supply";
  pool_address = codes "0xab";
  token0 = codes "0xc0";
  token1 = codes "0x00";
  amount0 = amount;
  amount1 = codes "0";
  tx_hash = codes "0xdd";
}

abbrev any : TickDataEvent → Bool
any e = true

too_short : verify_file any (row_with (codes "5") ∷ []) ≡ err (few_rows 1)
unfolding verify_file cast_row int_of read_from is_missing text_eq lower contains add
too_short = refl

repeats :
    verify_file any (row_with (codes "5") ∷ row_with (codes "6") ∷ [])
    ≡ err (bad_row 1 duplicate_key)
unfolding verify_file cast_row int_of read_from is_missing text_eq lower contains add key_eq
repeats = refl

no_amount : verify_file any (row_with (codes "nAn") ∷ []) ≡ err (bad_row 0 empty_amount0)
unfolding verify_file cast_row int_of read_from is_missing text_eq lower contains add
no_amount = refl

verify_file-IsGood_example :
    (verify_file any (row_with (codes "5") ∷ []) ≡ ok [])
    ↔ (AreCast (row_with (codes "5") ∷ []) [] × IsGood any [])
verify_file-IsGood_example = verify_file-IsGood any (row_with (codes "5") ∷ []) []

-- A chain of one transaction, and an API that is busy at every even call.
abbrev one_transaction : Text → Standing
one_transaction tx = if text_eq tx (codes "0xdd") then known (some 17) else unknown

abbrev busy : ℕ → Text → Reply
busy n tx = if n % 2 == 0 then text (codes "Max rate limit reached") else truth (one_transaction tx)

second_attempt : tx_block_from_etherscan busy 0 (codes "0xdd") ≡ (ok (some 17), 2)
unfolding tx_block_from_etherscan hex_int int_16 read_from text_eq removeprefix print
second_attempt = refl

-- A text is remembered longer than a network error.
abbrev down : ℕ → Text → Reply
down n tx = if n == 0 then text (codes "slow") else failed (codes "timeout")

three_attempts :
    tx_block_from_etherscan down 0 (codes "0xdd")
    ≡ (err (retries_spent (codes "0xdd") (codes "slow")), 3)
unfolding tx_block_from_etherscan
three_attempts = refl

busy-IsHonest : IsHonest one_transaction busy
busy-IsHonest = record {
  says = λ n tx. elim (Bool-cases (n % 2 == 0)) [
    | inl even ↦ rw even (inl tt)
    | inr odd ↦ rw odd (inr refl)
  ];
  recovers = λ n tx block k. elim (Bool-cases (n % 2 == 0)) [
    | inl even ↦
        inr (inl (let next : (suc n % 2 == 0) ≡ false = ground (arith, even) in rw next refl))
    | inr odd ↦ inl (rw odd refl)
  ];
}

abbrev one_file : List File
one_file = record { name = codes "a.csv"; content = some (row_with (codes "5") ∷ []) } ∷ []

abbrev first_rows : List TickDataEvent → ℕ → List TickDataEvent
first_rows rows n = take n rows

abbrev dotenv : Option (List Text)
dotenv = some (codes "# keys" ∷ codes "ETHERSCAN_API_KEY = \"abc\"" ∷ [])

main-zero_example : (main any first_rows busy dotenv [] one_file ≡ 0) ↔ (
    (one_file ≢ [])
    × ArePassed any first_rows busy one_transaction busy-IsHonest (has_api_key dotenv []) one_file)
main-zero_example = main-zero any first_rows busy one_transaction busy-IsHonest dotenv [] one_file
