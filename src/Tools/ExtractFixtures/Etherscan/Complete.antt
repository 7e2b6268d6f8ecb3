-- ===== src/Tools/ExtractFixtures/Etherscan/Complete.antt =====
-- What `etherscan_get_logs` gives back from an API that holds the chain's history.
use ai_quantum.Common.{
  ℕ, zero, suc, ◌+◌, ◌-◌, ◌/◌, ◌≤◌, ◌<◌, ◌≡◌, refl, ap, sym, subst, ◌∙◌, ◌⊎◌, inl, inr, leb, List,
  [], ◌∷◌, ◌++◌, length, length-append, length-take, take, take_all, Option, none, some, Outcome,
  ok, err, Bool-cases, arith, leb→le,
}
use ai_quantum.Common.Text.{Text, codes, starts_with, lower}
use ai_quantum.Tools.ExtractFixtures.{Log}
use ai_quantum.Tools.ExtractFixtures.Etherscan.{
  Params, Result, text, logs, Reply, body, FetchError, cannot_paginate, occurs_in, is_rate_limit,
  is_no_records, accept, rows_of, max_retries, request, fetch, get_logs, etherscan_get_logs,
  left_half, right_half, Rows, plus, halves, paginate,
}
use ai_quantum.Tools.ExtractFixtures.Etherscan.Spans.{History, span, span-add, block-le-span}

module _ (h : History) where
  abbrev pub logs_between : Params → List Log
  logs_between p = span (h p.address p.topic0) p.from_block (suc (p.to_block - p.from_block))

  -- Etherscan says so when there is nothing, and stops at 1000 rows.
  abbrev pub result_on : List Log → Result
  result_on [] = text (codes "No records found")
  result_on (l ∷ ls) = logs (take 1000 (l ∷ ls))

  abbrev pub answer : Params → Reply
  answer p = body (result_on (logs_between p))

  -- A call is answered from the history, or it fails in a way that is retried, and of five calls in
  -- a row for the same logs one is answered.
  pub record Serves (respond : ℕ → Params → Reply) : Type 0 where
    pub is_faithful :
        (n : ℕ) (p : Params)
        → ((e : Text) × (accept (respond n p) ≡ err e)) ⊎ (respond n p ≡ answer p)
    pub recovers : (n : ℕ) (p : Params) → (i : ℕ) × (i < 5) × (respond (n + i) p ≡ answer p)

  -- Every block can be fetched: then the logs are all of the range's, in order. Or some block holds
  -- 1000 logs or more: then the call raises and names such a block.
  abbrev pub IsAnswered : Params → Outcome FetchError (List Log) → Type 0
  IsAnswered p o =
      (((n : ℕ) → p.from_block ≤ n → n ≤ p.to_block → length (h p.address p.topic0 n) < 1000)
        × (o ≡ ok (logs_between p)))
      ⊎ ((n : ℕ) × (p.from_block ≤ n)
          × (n ≤ p.to_block)
          × (1000 ≤ length (h p.address p.topic0 n))
          × (o ≡ err (cannot_paginate n)))

  accept-result_on : (ls : List Log) → accept (body (result_on ls)) ≡ ok (result_on ls)
  unfolding accept is_rate_limit occurs_in starts_with lower
  accept-result_on [] = refl
  accept-result_on (l ∷ ls) = refl

  rows_of-result_on : (ls : List Log) → rows_of (result_on ls) ≡ ok (take 1000 ls)
  unfolding rows_of is_no_records occurs_in starts_with
  rows_of-result_on [] = refl
  rows_of-result_on (l ∷ ls) = refl

module _ (h : History) (respond : ℕ → Params → Reply) (s : Serves h respond) where
  request-answer :
      (left calls i : ℕ) (p : Params) (e : Option Text)
      → i < left
      → respond (calls + i) p ≡ answer h p
      → (c : ℕ) × (request respond left calls p e ≡ (ok (result_on h (logs_between h p)), c))
  unfolding request
  request-answer zero calls i p e small served = elim small [ ]
  request-answer (suc left) calls zero p e small served =
      let here : calls + 0 ≡ calls = omega arith in
      let answered : respond calls p ≡ answer h p = rw here at served in
      (suc calls, rw (answered, accept-result_on h (logs_between h p), request) refl)
  request-answer (suc left) calls (suc i) p e small served = elim (s.is_faithful calls p) [
    | inr answered ↦ (suc calls, rw (answered, accept-result_on h (logs_between h p), request) refl)
    | inl (raised, fails) ↦
        let next : calls + suc i ≡ suc calls + i = omega arith in
        let (c, ih) =
          request-answer left (suc calls) i p (some raised) (omega arith) (rw next at served) in
        (c, rw (fails, request) ih)
  ]

  fetch-take :
      (calls : ℕ) (p : Params)
      → (c : ℕ) × (fetch respond calls p ≡ (ok (take 1000 (logs_between h p)), c))
  unfolding fetch
  fetch-take calls p =
      let (i, small, served) = s.recovers calls p in
      let (c, e) = request-answer max_retries calls i p none small served in
      (c, rw (e, rows_of-result_on h (logs_between h p)) refl)

  -- The blocks of the two halves are those of the range.
  logs_between-halves :
      (p : Params)
      → p.from_block < p.to_block
      → logs_between h p ≡ logs_between h (left_half p) ++ logs_between h (right_half p)
  logs_between-halves p wide =
      let mid = (p.from_block + p.to_block) / 2 in
      let blocks = h p.address p.topic0 in
      let count : suc (p.to_block - p.from_block)
          ≡ suc (mid - p.from_block) + suc (p.to_block - (mid + 1)) =
        omega arith in
      let next : p.from_block + suc (mid - p.from_block) ≡ mid + 1 = omega arith in
      ap (λ (c : ℕ). span blocks p.from_block c) count
      ∙ span-add blocks p.from_block (suc (mid - p.from_block)) (suc (p.to_block - (mid + 1)))
      ∙ ap (λ (m : ℕ). logs_between h (left_half p) ++ span blocks m (suc (p.to_block - (mid + 1))))
          next

  few-IsAnswered :
      (p : Params)
      → p.from_block ≤ p.to_block
      → length (take 1000 (logs_between h p)) < 1000
      → IsAnswered h p (ok (take 1000 (logs_between h p)))
  few-IsAnswered p some_block few =
      let rows = logs_between h p in
      let all : length rows < 1000 = omega (arith, length-take 1000 rows) in
      inl (
        λ n i j. omega (
          arith,
          block-le-span (h p.address p.topic0) p.from_block n (suc (p.to_block - p.from_block)) i
              (omega arith),
        ),
        ap ok (take_all 1000 rows (omega arith)),
      )

  one-IsAnswered :
      (p : Params)
      → p.from_block ≤ p.to_block
      → p.to_block ≤ p.from_block
      → 1000 ≤ length (take 1000 (logs_between h p))
      → IsAnswered h p (err (cannot_paginate p.from_block))
  one-IsAnswered p i j many =
      let block = h p.address p.topic0 p.from_block in
      let one : p.to_block - p.from_block ≡ 0 = omega arith in
      inr (
        p.from_block,
        omega arith,
        i,
        (let large : 1000 ≤ length (take 1000 (block ++ [])) = rw one at many in
            omega (arith, length-take 1000 (block ++ []), length-append block [])),
        refl,
      )

  -- What the first half raises, the whole raises.
  left-IsAnswered :
      (p : Params) (e : FetchError)
      → p.from_block < p.to_block
      → IsAnswered h (left_half p) (err e)
      → IsAnswered h p (err e)
  left-IsAnswered p e wide (inl (fits, bad)) = cc bad
  left-IsAnswered p e wide (inr (n, i, j, large, same)) = inr (n, i, omega arith, large, same)

  plus-IsAnswered :
      (p : Params) (left : List Log) (r : Rows)
      → p.from_block < p.to_block
      → IsAnswered h (left_half p) (ok left)
      → IsAnswered h (right_half p) r.0
      → IsAnswered h p (plus left r).0
  plus-IsAnswered p left r wide (inr (n, i, j, large, bad)) k = cc bad
  plus-IsAnswered p left (err e, c) wide l (inl (fits, bad)) = cc bad
  plus-IsAnswered p left (err e, c) wide l (inr (n, i, j, large, same)) =
      inr (n, omega arith, j, large, same)
  plus-IsAnswered p left (ok right, c) wide l (inr (n, i, j, large, bad)) = cc bad
  plus-IsAnswered p left (ok right, c) wide (inl (fits, e)) (inl (fits', e')) = inl (
    λ n i j. elim (Bool-cases (leb n ((p.from_block + p.to_block) / 2))) [
      | inl low ↦ fits n i (leb→le n ((p.from_block + p.to_block) / 2) low)
      | inr high ↦ fits' n (ground arith) j
    ],
    cc (e, e', logs_between-halves p wide),
  )

  halves-IsAnswered :
      (p : Params) (second : ℕ → Rows) (first : Rows)
      → p.from_block < p.to_block
      → IsAnswered h (left_half p) first.0
      → ((c : ℕ) → IsAnswered h (right_half p) (second c).0)
      → IsAnswered h p (halves second first).0
  halves-IsAnswered p second (err e, c) wide l r = left-IsAnswered p e wide l
  halves-IsAnswered p second (ok left, c) wide l r = plus-IsAnswered p left (second c) wide l (r c)

  paginate-IsAnswered :
      (p : Params) (split : ℕ → Rows) (rows : List Log) (c : ℕ)
      → (length rows < 1000 → IsAnswered h p (ok rows))
      → (p.to_block ≤ p.from_block
          → 1000 ≤ length rows
          → IsAnswered h p (err (cannot_paginate p.from_block)))
      → (p.from_block < p.to_block → IsAnswered h p (split c).0)
      → IsAnswered h p (paginate p split (ok rows, c)).0
  paginate-IsAnswered p split rows c few one more = elim (Bool-cases (leb 1000 (length rows))) [
    | inr below ↦ rw below (few (ground arith))
    | inl many ↦ elim (Bool-cases (leb p.to_block p.from_block)) [
      | inl single ↦ rw (many, single) (one (ground arith) (ground arith))
      | inr wide ↦ rw (many, wide) (more (ground arith))
    ]
  ]

  get_logs_lem :
      (fuel calls : ℕ) (p : Params)
      → p.from_block ≤ p.to_block
      → p.to_block - p.from_block < fuel
      → IsAnswered h p (get_logs respond fuel calls p).0
  unfolding get_logs
  get_logs_lem zero calls p i small = elim small [ ]
  get_logs_lem (suc fuel) calls p i small =
      let (c, e) = fetch-take calls p in
      let second = λ (c' : ℕ). get_logs respond fuel c' (right_half p) in
      let split = λ (c' : ℕ). halves second (get_logs respond fuel c' (left_half p)) in
      subst (λ r. IsAnswered h p (paginate p split r).0) (sym e)
        (paginate-IsAnswered p split (take 1000 (logs_between h p)) c (few-IsAnswered p i)
          (one-IsAnswered p i)
          (λ wide.
            halves-IsAnswered p second (get_logs respond fuel c (left_half p)) wide
              (get_logs_lem fuel c (left_half p) (omega arith) (omega arith))
              (λ c'. get_logs_lem fuel c' (right_half p) (omega arith) (omega arith))))

-- Ranges, whatever their size, are fetched whole: the call gives back all the logs of the
-- contract and the topic in the blocks asked for, in the chain's order, and it raises only where a
-- single block holds 1000 logs or more, and then it names such a block. The API is asked to answer from the
-- history, at most 1000 rows at a time, with less than five failures in a row.
pub etherscan_get_logs_lem :
    (h : History) (respond : ℕ → Params → Reply) (calls : ℕ) (p : Params)
    → Serves h respond
    → p.from_block ≤ p.to_block
    → IsAnswered h p (etherscan_get_logs respond calls p).0
unfolding etherscan_get_logs
etherscan_get_logs_lem h respond calls p s some_block =
    get_logs_lem h respond s (suc (p.to_block - p.from_block)) calls p some_block (omega arith)
