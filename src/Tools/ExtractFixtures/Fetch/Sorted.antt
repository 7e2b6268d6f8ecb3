-- ===== src/Tools/ExtractFixtures/Fetch/Sorted.antt =====
-- What the table of a period holds.
use ai_quantum.Common.{
  ℕ, ◌≤◌, ◌<◌, ◌≡◌, refl, inl, inr, List, [], ◌∷◌, ◌++◌, length, Option, Outcome, ok, err, arith,
}
use ai_quantum.Common.Text.{Text}
use ai_quantum.Common.Sorting.{Key, sort, sort-IsSorted, of_key, of_key-sort, IsSorted}
use ai_quantum.Ingestion.Event.{TickDataEvent}
use ai_quantum.Tools.ExtractFixtures.{Period, Log}
use ai_quantum.Tools.ExtractFixtures.Etherscan.{Params, Reply, FetchError, Rows, etherscan_get_logs}
use ai_quantum.Tools.ExtractFixtures.Etherscan.Spans.{History}
use ai_quantum.Tools.ExtractFixtures.Etherscan.Complete.{
  Serves, logs_between, IsAnswered, etherscan_get_logs_lem,
}
use ai_quantum.Tools.ExtractFixtures.Fetch.{
  Kind, Decoder, decode_all, decoded, extend, Table, kinds, fetch_kinds, fetch_period,
  block_and_index,
}

extend-ok :
    (next : ℕ → Table) (t : Table) (rows more : List TickDataEvent)
    → t.0 ≡ ok rows
    → ((c : ℕ) → (next c).0 ≡ ok more)
    → (extend next t).0 ≡ ok (rows ++ more)
extend-ok next (err e, c) rows more h k = cc h
extend-ok next (ok rs, c) rows more h k =
    let same : rs ≡ rows = ground (arith, h) in rw (k c, same) refl

decoded-ok :
    (decode : Decoder) (r : Rows) (logs : List Log) (rows : List TickDataEvent)
    → r.0 ≡ ok logs
    → decode_all decode logs ≡ ok rows
    → (decoded decode r).0 ≡ ok rows
decoded-ok decode (err e, c) logs rows h k = cc h
decoded-ok decode (ok ls, c) logs rows h k = let same : ls ≡ logs = ground (arith, h) in rw same k

module _ (h : History) where
  -- The blocks are in order, and none holds so many logs that the API would cut them off.
  pub record CanFetch (p : Params) : Type 0 where
    pub some_block : p.from_block ≤ p.to_block
    pub fits : (n : ℕ) → p.from_block ≤ n → n ≤ p.to_block → length (h p.address p.topic0 n) < 1000

  -- What the history's logs of the kinds decode to, kind after kind.
  pub data AreRows : List Kind → List TickDataEvent → Type 0 where
    none_left : AreRows [] []
    then_kind :
        (k : Kind) (ks : List Kind) (rows more : List TickDataEvent)
        → CanFetch k.params
        → decode_all k.decode (logs_between h k.params) ≡ ok rows
        → AreRows ks more
        → AreRows (k ∷ ks) (rows ++ more)

  module _ (respond : ℕ → Params → Reply) (s : Serves h respond) where
    pub fetches_all :
        (p : Params) (o : Outcome FetchError (List Log))
        → CanFetch p
        → IsAnswered h p o
        → o ≡ ok (logs_between h p)
    fetches_all p o c (inl (fits, e)) = e
    fetches_all p o c (inr (n, i, j, large, e)) = let small = c.fits n i j in absurd (omega arith)

    fetch_kinds-AreRows :
        (ks : List Kind) (rows : List TickDataEvent) (calls : ℕ)
        → AreRows ks rows
        → (fetch_kinds respond ks calls).0 ≡ ok rows
    unfolding fetch_kinds
    fetch_kinds-AreRows ks rows calls none_left = refl
    fetch_kinds-AreRows ks rows calls (then_kind k ks' rs more c e a) =
        let fetched = etherscan_get_logs respond calls k.params in
        let all =
          fetches_all k.params fetched.0 c
            (etherscan_get_logs_lem h respond calls k.params s c.some_block) in
        extend-ok (fetch_kinds respond ks') (decoded k.decode fetched) rs more
          (decoded-ok k.decode fetched (logs_between h k.params) rs all e)
          (λ calls'. fetch_kinds-AreRows ks' more calls' a)

pub fetch_period-sort :
    (h : History) (respond : ℕ → Params → Reply) (iso : ℕ → Option Text) (period : Period)
    (all : List TickDataEvent) (calls : ℕ)
    → Serves h respond
    → AreRows h (kinds iso period) all
    → (fetch_period respond iso period calls).0 ≡ ok (sort block_and_index all)
unfolding fetch_period
fetch_period-sort h respond iso period all calls s a =
    rw (fetch_kinds-AreRows h respond s (kinds iso period) all calls a) refl

-- A period's table is complete and in order: if its blocks are in order, no block holds 1000 logs
-- of one of the four kinds, and all these logs decode, then the table holds exactly the rows they
-- decode to, sorted by block and log index, and the rows of one block and one index stay in the
-- order of their kinds. The API is asked to answer from the history, with less than five failures
-- in a row.
pub fetch_period_lem :
    (h : History) (respond : ℕ → Params → Reply) (iso : ℕ → Option Text) (period : Period)
    (all : List TickDataEvent) (calls : ℕ)
    → Serves h respond
    → AreRows h (kinds iso period) all
    → (rows : List TickDataEvent) × ((fetch_period respond iso period calls).0 ≡ ok rows)
      × IsSorted block_and_index rows
      × ((k : Key) → of_key block_and_index k rows ≡ of_key block_and_index k all)
fetch_period_lem h respond iso period all calls s a = (
  sort block_and_index all,
  fetch_period-sort h respond iso period all calls s a,
  sort-IsSorted block_and_index all,
  λ k. of_key-sort block_and_index k all,
)
