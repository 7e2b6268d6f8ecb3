-- ===== src/Tools/Reconcile.antt =====
-- tools/reconcile_etherscan.py: the buffer's events against the chain's. The sample of blocks and
-- what is fetched for a block are parameters; the report's text is left out.
pub mod Matched
pub mod Fetcher
mod Tests
use ai_quantum.Common.{
  ℕ, ◌+◌, ◌==◌, min, leb, Bool, true, false, ◌&&◌, if◌then◌else◌, List, [], ◌∷◌, ◌++◌, map, length,
  Option, none, some, ==_iff,
}
use ai_quantum.Common.Text.{Text, text_eq, lower}
use ai_quantum.Common.Eq.{Eq}
use ai_quantum.Common.Dict.{get, put}
use ai_quantum.Common.Set.{contains, of_list, sorted}
use ai_quantum.Common.Float.{Float}
use ai_quantum.Ingestion.Event.{TickDataEvent}
use ai_quantum.Tools.VerifyFixtures.{RowKey, key_instance}

instance abbrev pub block_instance : Eq ℕ
block_instance = record { are_same = ◌==◌; are_same_iff = ==_iff }

-- `_key`.
unfoldable pub event_key : TickDataEvent → RowKey
event_key e = (lower e.tx_hash, e.log_index)

-- `_norm`: the six compared fields.
pub record Norm : Type 0 where
  pub event_type : Text
  pub pool_address : Text
  pub token0 : Text
  pub token1 : Text
  pub amount0 : Text
  pub amount1 : Text

unfoldable pub norm : TickDataEvent → Norm
norm e = record {
  event_type = lower e.event_type;
  pool_address = lower e.pool_address;
  token0 = lower e.token0;
  token1 = lower e.token1;
  amount0 = lower e.amount0;
  amount1 = lower e.amount1;
}

-- The equality of two of them.
unfoldable pub norm_eq : Norm → Norm → Bool
norm_eq m n =
    text_eq m.event_type n.event_type
    && text_eq m.pool_address n.pool_address
    && text_eq m.token0 n.token0
    && text_eq m.token1 n.token1
    && text_eq m.amount0 n.amount0
    && text_eq m.amount1 n.amount1

-- `sample_blocks`, where `pick` is the generator's `sample`.
unfoldable pub sample_blocks : (List ℕ → ℕ → List ℕ) → List TickDataEvent → ℕ → List ℕ
sample_blocks pick events n =
    let blocks = sorted leb (of_list (map (λ (e : TickDataEvent). e.block_number) events)) in
    sorted leb (pick blocks (min n (length blocks)))

-- `[e for e in events if e["block_number"] in sample_set]`.
unfoldable pub in_sample : List ℕ → List TickDataEvent → List TickDataEvent
in_sample sample [] = []
in_sample sample (e ∷ es) =
    let rest = in_sample sample es in
    if contains e.block_number (of_list sample) then e ∷ rest else rest

abbrev pub Chain : Type 0
Chain = List (RowKey × TickDataEvent)

unfoldable pub index : Chain → List TickDataEvent → Chain
index d [] = d
index d (oe ∷ oes) = index (put (event_key oe) oe d) oes

-- The two nested loops that fill `onchain`.
unfoldable pub onchain : (ℕ → List TickDataEvent) → Chain → List ℕ → Chain
unfolding index
onchain fetch d [] = d
onchain fetch d (b ∷ bs) = onchain fetch (index d (fetch b)) bs

pub record Mismatch : Type 0 where
  pub key : RowKey
  pub buffer : Norm
  pub chain : Option Norm

abbrev pub norm_of : Option TickDataEvent → Option Norm
norm_of none = none
norm_of (some oe) = some (norm oe)

-- `oe is not None and _norm(oe) == _norm(e)`.
abbrev pub is_match : TickDataEvent → Option TickDataEvent → Bool
is_match e none = false
is_match e (some oe) = norm_eq (norm oe) (norm e)

-- The loop over the buffer: how many match, and the mismatches.
unfoldable pub compare_all : Chain → List TickDataEvent → ℕ × List Mismatch
compare_all chain [] = (0, [])
compare_all chain (e ∷ es) =
    let (matched, mismatches) = compare_all chain es in
    let oe = get (event_key e) chain in
    if is_match e oe
    then (matched + 1, mismatches)
    else (matched, record { key = event_key e; buffer = norm e; chain = norm_of oe } ∷ mismatches)

module _ {F : Type 0} ⦃f : Float F⦄ (gate : F) where
  pub record ReconcileResult : Type 0 where
    pub match_rate : F
    pub ok : Bool
    pub total : ℕ
    pub matched : ℕ
    pub mismatches : List Mismatch

  abbrev pub rate : ℕ → ℕ → F
  rate matched total = if total == 0 then f.of_ℕ 0 else f.div (f.of_ℕ matched) (f.of_ℕ total)

  -- What `reconcile` returns, from the buffer's events in the sample and the chain's.
  unfoldable pub result_of : List TickDataEvent → Chain → ReconcileResult
  unfolding compare_all
  result_of buf chain =
      let (matched, mismatches) = compare_all chain buf in
      let r = rate matched (length buf) in
      record {
        match_rate = r;
        ok = f.le gate r;
        total = length buf;
        matched = matched;
        mismatches = mismatches;
      }

  unfoldable pub reconcile :
      List TickDataEvent → List ℕ → (ℕ → List TickDataEvent) → ReconcileResult
  unfolding in_sample onchain result_of
  reconcile events sample fetch = result_of (in_sample sample events) (onchain fetch [] sample)
