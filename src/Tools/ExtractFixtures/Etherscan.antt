-- ===== src/Tools/ExtractFixtures/Etherscan.antt =====
-- `etherscan_get_logs` of tools/extract_fixtures.py. The API is a function from the number of calls
-- made so far and the parameters of the call to its reply; the number is the only state. Pauses
-- between calls are left out.
pub mod Spans
pub mod Complete
use ai_quantum.Common.{
  ℕ, zero, suc, ◌+◌, ◌-◌, ◌/◌, leb, Bool, true, false, ◌||◌, Option, none, some, ◌>>=◌,
  if◌then◌else◌, List, [], ◌∷◌, ◌++◌, length, Outcome, ok, err,
}
use ai_quantum.Common.Text.{Text, codes, lower, starts_with}
use ai_quantum.Tools.ExtractFixtures.{Log}

-- The parameters of a call that vary.
pub record Params : Type 0 where
  pub from_block : ℕ
  pub to_block : ℕ
  pub address : Text
  pub topic0 : Text

-- `body.get("result")`: a text, a list, or neither.
pub data Result : Type 0 where
  text : Text → Result
  logs : List Log → Result
  neither : Result

-- What a request gives: `requests.RequestException`, or a body.
pub data Reply : Type 0 where
  failed : Text → Reply
  body : Result → Reply

-- The `RuntimeError`s, by their message.
pub data FetchError : Type 0 where
  retries_spent : Option Text → FetchError
  etherscan_error : Text → FetchError
  unexpected : FetchError
  cannot_paginate : ℕ → FetchError
  -- The fuel of the recursion, which is never used up.
  out_of_fuel : FetchError

-- `needle in s`.
unfoldable pub occurs_in : Text → Text → Bool
occurs_in needle [] = starts_with needle []
occurs_in needle (c ∷ s) = starts_with needle (c ∷ s) || occurs_in needle s

unfoldable pub is_rate_limit : Text → Bool
is_rate_limit s = occurs_in (codes "rate limit") (lower s)

unfoldable pub is_no_records : Text → Bool
is_no_records s = occurs_in (codes "No records") s

-- Whether the loop takes the reply, or what it keeps as `last_err`.
unfoldable pub accept : Reply → Outcome Text Result
accept (failed e) = err e
accept (body (text s)) = if is_rate_limit s then err s else ok (text s)
accept (body (logs rows)) = ok (logs rows)
accept (body neither) = ok neither

abbrev pub max_retries : ℕ
max_retries = 5

-- What is made of the reply that was taken.
unfoldable pub rows_of : Result → Outcome FetchError (List Log)
rows_of (text s) = if is_no_records s then ok [] else err (etherscan_error s)
rows_of (logs rows) = ok rows
rows_of neither = err unexpected

abbrev pub left_half : Params → Params
left_half p = record p { to_block = (p.from_block + p.to_block) / 2 }

abbrev pub right_half : Params → Params
right_half p = record p { from_block = (p.from_block + p.to_block) / 2 + 1 }

abbrev pub Rows : Type 0
Rows = Outcome FetchError (List Log) × ℕ

-- `left + right`, where either call may raise; the second is made after the first.
abbrev pub plus : List Log → Rows → Rows
plus left (err e, calls) = (err e, calls)
plus left (ok right, calls) = (ok (left ++ right), calls)

abbrev pub halves : (ℕ → Rows) → Rows → Rows
halves second (err e, calls) = (err e, calls)
halves second (ok left, calls) = plus left (second calls)

-- The cap, and the split.
abbrev pub paginate : Params → (ℕ → Rows) → Rows → Rows
paginate p split (err e, calls) = (err e, calls)
paginate p split (ok rows, calls) =
    if leb 1000 (length rows)
    then if leb p.to_block p.from_block
      then (err (cannot_paginate p.from_block), calls)
      else split calls
    else (ok rows, calls)

module _ (respond : ℕ → Params → Reply) where
  -- The attempts that are left, from the `calls`th call on.
  unfoldable pub request : ℕ → ℕ → Params → Option Text → Outcome FetchError Result × ℕ
  request zero calls p last_err = (err (retries_spent last_err), calls)
  request (suc left) calls p last_err = elim (accept (respond calls p)) [
    | err e ↦ request left (suc calls) p (some e)
    | ok r ↦ (ok r, suc calls)
  ]

  -- One call of the function, up to the split.
  unfoldable pub fetch : ℕ → Params → Outcome FetchError (List Log) × ℕ
  unfolding request rows_of
  fetch calls p = let (r, calls') = request max_retries calls p none in (r >>= rows_of, calls')

  unfoldable pub get_logs : ℕ → ℕ → Params → Rows
  unfolding fetch
  get_logs zero calls p = (err out_of_fuel, calls)
  get_logs (suc fuel) calls p =
      paginate p
        (λ c. halves (λ c'. get_logs fuel c' (right_half p)) (get_logs fuel c (left_half p)))
        (fetch calls p)

  -- The fuel is the number of blocks.
  unfoldable pub etherscan_get_logs : ℕ → Params → Outcome FetchError (List Log) × ℕ
  unfolding get_logs
  etherscan_get_logs calls p = get_logs (suc (p.to_block - p.from_block)) calls p
