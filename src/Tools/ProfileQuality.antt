-- ===== src/Tools/ProfileQuality.antt =====
-- `profile` of tools/profile_quality.py. The calendar is a parameter: a text's time, and the seconds
-- from one time to another, `none` where a time without a zone meets one with a zone. The report's text and its charts are left out.
pub mod Counts
pub mod Blocks
pub mod Profiled
mod Tests
use ai_quantum.Common.{
  ℕ, ◌+◌, ◌-◌, leb, if◌then◌else◌, List, [], ◌∷◌, length, last, Option, none, some, Outcome, ok,
  err, ◌>>=◌,
}
use ai_quantum.Common.Text.{Text}
use ai_quantum.Common.Eq.{text_eq_instance}
use ai_quantum.Common.Dict.{keys, get, put}
use ai_quantum.Common.Dict.Keys.{has}
use ai_quantum.Common.Set.{of_list, sorted}
use ai_quantum.Common.Float.{Float, py_max}
use ai_quantum.Ingestion.Event.{TickDataEvent}
use ai_quantum.Tools.Reconcile.{block_instance}

abbrev pub Tally : Type 0
Tally = List (Text × ℕ)

abbrev pub or_zero : Option ℕ → ℕ
or_zero none = 0
or_zero (some n) = n

-- `Counter(field(e) for e in events)`, from what was counted before.
unfoldable pub tally : (TickDataEvent → Text) → List TickDataEvent → Tally → Tally
tally field [] counts = counts
tally field (e ∷ es) counts =
    tally field es (put (field e) (or_zero (get (field e) counts) + 1) counts)

abbrev pub Times : Type 0
Times = List (ℕ × Text)

-- `ts_by_block.setdefault(block, timestamp)`.
abbrev pub set_time : TickDataEvent → Times → Times
set_time e times =
    if has e.block_number times then times else put e.block_number e.block_timestamp times

unfoldable pub times_of : List TickDataEvent → Times → Times
times_of [] times = times
times_of (e ∷ es) times = times_of es (set_time e times)

-- `sorted(ts_by_block)`.
unfoldable pub blocks_of : Times → List ℕ
blocks_of times = sorted leb (keys times)

pub data ProfileError : Type 0 where
  key_error value_error type_error : ProfileError

abbrev pub last_from : ℕ → List ℕ → ℕ
last_from a [] = a
last_from a (b ∷ bs) = last_from b bs

pub record Gap (F : Type 0) : Type 0 where
  pub from_block : ℕ
  pub to_block : ℕ
  pub seconds : F

pub record QualityProfile (F : Type 0) : Type 0 where
  pub total_events : ℕ
  pub per_protocol : Tally
  pub per_event_type : Tally
  pub n_blocks : ℕ
  pub block_range : ℕ × ℕ
  pub block_drop_rate : F
  pub timestamp_gaps : List (Gap F)
  pub gaps_over_30s : List (Gap F)

module _ {T : Type 0} (parse : Text → Option T) where
  abbrev pub or_value_error : Option T → Outcome ProfileError T
  or_value_error none = err value_error
  or_value_error (some t) = ok t

  -- `ts_by_block[block]`, read by `datetime.fromisoformat`.
  abbrev pub read_time : Option Text → Outcome ProfileError T
  read_time none = err key_error
  read_time (some text) = or_value_error (parse text)

-- The subtraction of two times, which raises for a naive and an aware one.
abbrev pub or_type_error : {F : Type 0} → Option F → Outcome ProfileError F
or_type_error none = err type_error
or_type_error (some seconds) = ok seconds

module _ {F : Type 0} ⦃f : Float F⦄ where
  -- `[g for g in gaps if g[2] > 30.0]`.
  unfoldable pub over_30s : List (Gap F) → List (Gap F)
  over_30s [] = []
  over_30s (gap ∷ gaps) =
      let rest = over_30s gaps in if f.lt (f.of_ℕ 30) gap.seconds then gap ∷ rest else rest

  -- `1 - len(set(blocks_seen)) / span`, or by the blocks that have events.
  unfoldable pub drop_rate : Option (List ℕ) → ℕ → ℕ → F
  drop_rate none n_blocks span = f.sub (f.of_ℕ 1) (f.div (f.of_ℕ n_blocks) (f.of_ℕ span))
  drop_rate (some []) n_blocks span = f.sub (f.of_ℕ 1) (f.div (f.of_ℕ n_blocks) (f.of_ℕ span))
  drop_rate (some (b ∷ bs)) n_blocks span =
      f.sub (f.of_ℕ 1) (f.div (f.of_ℕ (length (of_list (b ∷ bs)))) (f.of_ℕ span))

  abbrev pub empty_profile : QualityProfile F
  empty_profile = record {
    total_events = 0;
    per_protocol = [];
    per_event_type = [];
    n_blocks = 0;
    block_range = (0, 0);
    block_drop_rate = f.of_ℕ 0;
    timestamp_gaps = [];
    gaps_over_30s = [];
  }

  -- The profile from the blocks, of which `lo` is the first, and the gaps.
  abbrev pub filled :
      List TickDataEvent → Option (List ℕ) → ℕ → List ℕ → List (Gap F) → QualityProfile F
  filled events blocks_seen lo bs gaps = record {
    total_events = length events;
    per_protocol = tally (λ (e : TickDataEvent). e.protocol) events [];
    per_event_type = tally (λ (e : TickDataEvent). e.event_type) events [];
    n_blocks = length (lo ∷ bs);
    block_range = (lo, last_from lo bs);
    block_drop_rate =
        py_max (f.of_ℕ 0) (drop_rate blocks_seen (length (lo ∷ bs)) (last_from lo bs - lo + 1));
    timestamp_gaps = gaps;
    gaps_over_30s = over_30s gaps;
  }

module _ {F T : Type 0} ⦃f : Float F⦄ (parse : Text → Option T)
    (seconds_to : T → T → Option F) where
  unfoldable pub gap_between : Times → ℕ → ℕ → Outcome ProfileError (Gap F)
  gap_between times a b = do
    later ← read_time parse (get b times)
    earlier ← read_time parse (get a times)
    seconds ← or_type_error (seconds_to earlier later)
    ok (record { from_block = a; to_block = b; seconds = seconds })

  -- The loop over `zip(blocks, blocks[1:])`, from the block `a` on.
  unfoldable pub gaps_from : Times → ℕ → List ℕ → Outcome ProfileError (List (Gap F))
  unfolding gap_between
  gaps_from times a [] = ok []
  gaps_from times a (b ∷ bs) = do
    gap ← gap_between times a b
    gaps ← gaps_from times b bs
    ok (gap ∷ gaps)

  -- The rest of the function, for the sorted blocks; there is one where there is an event.
  unfoldable pub profile_of :
      List TickDataEvent
      → Option (List ℕ)
      → Times
      → List ℕ
      → Outcome ProfileError (QualityProfile F)
  unfolding gaps_from tally over_30s drop_rate
  profile_of events blocks_seen times [] = ok empty_profile
  profile_of events blocks_seen times (lo ∷ bs) = do
    gaps ← gaps_from times lo bs
    ok (filled events blocks_seen lo bs gaps)

  unfoldable pub profile :
      List TickDataEvent → Option (List ℕ) → Outcome ProfileError (QualityProfile F)
  unfolding times_of blocks_of profile_of
  profile [] blocks_seen = ok empty_profile
  profile (e ∷ es) blocks_seen =
      let times = times_of (e ∷ es) [] in profile_of (e ∷ es) blocks_seen times (blocks_of times)
