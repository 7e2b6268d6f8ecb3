-- ===== src/Tools/ProfileQuality/Blocks.antt =====
-- The blocks of a profile, in their order.
use ai_quantum.Common.{
  or_else, or_else-none, ℕ, ◌+◌, ◌≤◌, ◌<◌, ◌==◌, ==_iff, leb, ◌≡◌, refl, sym, ◌∙◌, if◌then◌else◌,
  Bool-cases, ◌||◌, inl, inr, true, false, List, [], ◌∷◌, length, Option, none, some, arith,
}
use ai_quantum.Common.Text.{Text}
use ai_quantum.Common.Dict.{keys, get, put, get-put}
use ai_quantum.Common.Dict.Keys.{has, has-put, get-has, get-missing, put-IsUnique}
use ai_quantum.Common.Set.{
  contains, IsUnique, IsSorted, Below, contains-sorted, sorted-IsUnique, sorted-IsSorted,
}
use ai_quantum.Ingestion.Event.{TickDataEvent}
use ai_quantum.Tools.Reconcile.{block_instance}
use ai_quantum.Tools.ProfileQuality.{Times, set_time, times_of, blocks_of, last_from}

abbrev pub block_numbers : List TickDataEvent → List ℕ
block_numbers [] = []
block_numbers (e ∷ es) = e.block_number ∷ block_numbers es

-- The timestamp of the first event of the block.
abbrev pub first_time : ℕ → List TickDataEvent → Option Text
first_time b [] = none
first_time b (e ∷ es) = if e.block_number == b then some e.block_timestamp else first_time b es

set_time-has :
    (b : ℕ) (e : TickDataEvent) (times : Times)
    → has b (set_time e times) ≡ (has b times || e.block_number == b)
set_time-has b e times = elim (Bool-cases (has e.block_number times)) [
  | inl old ↦ rw old (ground (arith, ==_iff e.block_number b, old))
  | inr new ↦ rw new (ground (arith, has-put e.block_number b e.block_timestamp times))
]

set_time-IsUnique :
    (e : TickDataEvent) (times : Times) → IsUnique (keys times) → IsUnique (keys (set_time e times))
set_time-IsUnique e times u = elim (Bool-cases (has e.block_number times)) [
  | inl old ↦ rw old u
  | inr new ↦ rw new (put-IsUnique e.block_number e.block_timestamp times u)
]

-- A block that is there keeps its time.
old_time :
    (b : ℕ) (e : TickDataEvent) (times : Times) (later : Option Text)
    → has e.block_number times ≡ true
    → or_else (get b times) later
      ≡ or_else (get b times) (if e.block_number == b then some e.block_timestamp else later)
old_time b e times later h = elim (Bool-cases (e.block_number == b)) [
  | inr other ↦ rw other refl
  | inl same ↦
      let equal : e.block_number ≡ b = (==_iff e.block_number b).0 same in
      let (v, g) = get-has b times (rw equal at h) in rw g refl
]

new_time :
    (b : ℕ) (e : TickDataEvent) (times : Times) (later : Option Text)
    → has e.block_number times ≡ false
    → or_else (get b (put e.block_number e.block_timestamp times)) later
      ≡ or_else (get b times) (if e.block_number == b then some e.block_timestamp else later)
new_time b e times later h =
    rw (get-put e.block_number b e.block_timestamp times) (elim (Bool-cases (e.block_number == b)) [
      | inr other ↦ rw other refl
      | inl same ↦
          let equal : e.block_number ≡ b = (==_iff e.block_number b).0 same in
          rw (same, get-missing b times (rw equal at h)) refl
    ])

set_time-get :
    (b : ℕ) (e : TickDataEvent) (times : Times) (later : Option Text)
    → or_else (get b (set_time e times)) later
      ≡ or_else (get b times) (if e.block_number == b then some e.block_timestamp else later)
set_time-get b e times later = elim (Bool-cases (has e.block_number times)) [
  | inl old ↦ rw old (old_time b e times later old)
  | inr new ↦ rw new (new_time b e times later new)
]

times_of-has :
    (b : ℕ) (es : List TickDataEvent) (times : Times)
    → has b (times_of es times) ≡ (has b times || contains b (block_numbers es))
unfolding times_of contains
times_of-has b [] times = ground arith
times_of-has b (e ∷ es) times =
    ground (arith, times_of-has b es (set_time e times), set_time-has b e times)

times_of-IsUnique :
    (es : List TickDataEvent) (times : Times)
    → IsUnique (keys times)
    → IsUnique (keys (times_of es times))
unfolding times_of
times_of-IsUnique [] times u = u
times_of-IsUnique (e ∷ es) times u =
    times_of-IsUnique es (set_time e times) (set_time-IsUnique e times u)

times_of-get :
    (b : ℕ) (es : List TickDataEvent) (times : Times)
    → get b (times_of es times) ≡ or_else (get b times) (first_time b es)
unfolding times_of
times_of-get b [] times = sym (or_else-none (get b times))
times_of-get b (e ∷ es) times =
    times_of-get b es (set_time e times) ∙ set_time-get b e times (first_time b es)

-- The time kept for a block is that of its first event.
pub time_of_block : (b : ℕ) (es : List TickDataEvent) → get b (times_of es []) ≡ first_time b es
unfolding get
time_of_block b es = times_of-get b es []

-- Every number is below those behind it.
abbrev pub IsRising : ℕ → List ℕ → Type 0
IsRising a [] = Unit
IsRising a (b ∷ bs) = (a < b) × IsRising b bs

Below-IsRising :
    (a : ℕ) (bs : List ℕ)
    → Below leb a bs
    → IsSorted leb bs
    → contains a bs ≡ false
    → IsUnique bs
    → IsRising a bs
unfolding contains
Below-IsRising a [] h s c u = tt
Below-IsRising a (b ∷ bs) h s c u =
    (ground (arith, h.0, c, ==_iff b a), Below-IsRising b bs s.0 s.1 u.0 u.1)

abbrev pub AreRising : List ℕ → Type 0
AreRising [] = Unit
AreRising (a ∷ bs) = IsRising a bs

IsSorted-AreRising : (bs : List ℕ) → IsSorted leb bs → IsUnique bs → AreRising bs
IsSorted-AreRising [] s u = tt
IsSorted-AreRising (b ∷ bs) s u = Below-IsRising b bs s.0 s.1 u.0 u.1

pub blocks_of-AreRising : (es : List TickDataEvent) → AreRising (blocks_of (times_of es []))
unfolding blocks_of keys
blocks_of-AreRising es =
    IsSorted-AreRising (blocks_of (times_of es []))
      (sorted-IsSorted leb (λ a b h. ground arith) (λ a b c h k. ground arith)
        (keys (times_of es [])))
      (sorted-IsUnique leb (keys (times_of es [])) (times_of-IsUnique es [] tt))

pub contains-blocks_of :
    (b : ℕ) (es : List TickDataEvent)
    → contains b (blocks_of (times_of es [])) ≡ contains b (block_numbers es)
unfolding blocks_of keys contains
contains-blocks_of b es = contains-sorted leb b (keys (times_of es [])) ∙ times_of-has b es []

-- Rising numbers from `a` on fit between `a` and the last of them.
pub rising_fits : (a : ℕ) (bs : List ℕ) → IsRising a bs → a + length bs ≤ last_from a bs
rising_fits a [] h = omega arith
rising_fits a (b ∷ bs) h = omega (arith, h.0, rising_fits b bs h.1)

pub rising-range :
    (a c : ℕ) (bs : List ℕ)
    → IsRising a bs
    → contains c (a ∷ bs) ≡ true
    → (a ≤ c) × (c ≤ last_from a bs)
unfolding contains
rising-range a c [] h k = ground (arith, ==_iff a c, k)
rising-range a c (b ∷ bs) h k = elim (Bool-cases (a == c)) [
  | inl same ↦ ground (arith, ==_iff a c, rising_fits a (b ∷ bs) h)
  | inr other ↦
      let (low, high) = rising-range b c bs h.1 (rw other at k) in (omega (arith, h.0), high)
]
