-- ===== src/Tools/MockWss/Fixture/Loaded.antt =====
-- What a loaded fixture is, and what the replay makes of it.
use ai_quantum.Common.Int.{ℤ, pos, negsuc}
use ai_quantum.Common.{
  Bool, true, false, Option, none, some, ℕ, zero, suc, ◌+◌, ◌≡◌, ◌⊎◌, inl, inr, refl, ap, List, [],
  ◌∷◌, ok, err, Outcome-cases, arith,
}
use ai_quantum.Common.Int.{ℤ, pos, negsuc}
use ai_quantum.Common.Dict.Keys.{All}
use ai_quantum.Common.Sorting.{Key, AreAbove, IsSorted, sort, sort-IsSorted, of_key, of_key-sort}
use ai_quantum.Ingestion.Event.{TickDataEvent}
use ai_quantum.Tools.MockWss.Fixture.{
  BadRow, invalid, to_int, with_ints, Raw, Column, invalid_integer, cast_row, load_rows,
  load_events, block_and_index,
}
use ai_quantum.Tools.MockWss.Blocks.{iter_block_groups}
use ai_quantum.Tools.MockWss.Blocks.Grouping.{
  IsSortedFrom, AreBlocks, IsIncreasingFrom, all_rows, iter_block_groups_lem,
}

-- Every row has its integers.
abbrev pub AreCast : List Raw → List TickDataEvent → Type 0
AreCast [] [] = Unit
AreCast (r ∷ rs) (e ∷ es) = (cast_row r ≡ ok e) × AreCast rs es
AreCast [] (e ∷ es) = ⊥
AreCast (r ∷ rs) [] = ⊥

-- The first bad row, its place and its column; the rows before it have their integers.
abbrev pub IsFirstBad : List Raw → ℕ → Column → Type 0
IsFirstBad [] i c = ⊥
IsFirstBad (r ∷ rs) zero c = cast_row r ≡ err (invalid c)
IsFirstBad (r ∷ rs) (suc i) c = ((e : TickDataEvent) × (cast_row r ≡ ok e)) × IsFirstBad rs i c

abbrev is_below_zero : Option ℤ → Bool
is_below_zero none = false
is_below_zero (some (pos n)) = false
is_below_zero (some (negsuc n)) = true

-- No integer of the rows is below zero.
abbrev pub AreNatural : List Raw → Type 0
AreNatural = All (λ (r : Raw).
    (is_below_zero (to_int r.block_number) ≡ false) × (is_below_zero (to_int r.log_index) ≡ false))

not_below :
    (r : Raw) (b i : Option ℤ)
    → is_below_zero b ≡ false
    → is_below_zero i ≡ false
    → with_ints r b i ≡ err BadRow.below_zero
    → ⊥
not_below r none i h k e = cc e
not_below r (some (negsuc b)) i h k e = cc h
not_below r (some (pos b)) none h k e = cc e
not_below r (some (pos b)) (some (negsuc i)) h k e = cc k
not_below r (some (pos b)) (some (pos i)) h k e = cc e

cast_row-not_below :
    (r : Raw)
    → is_below_zero (to_int r.block_number) ≡ false
    → is_below_zero (to_int r.log_index) ≡ false
    → cast_row r ≡ err BadRow.below_zero
    → ⊥
unfolding cast_row
cast_row-not_below r h k e = not_below r (to_int r.block_number) (to_int r.log_index) h k e

pub from_index :
    (e : TickDataEvent) (es : List TickDataEvent)
    → AreAbove block_and_index (block_and_index e) es
    → AreAbove block_and_index (e.block_number, 0) es
from_index e [] h = tt
from_index e (x ∷ xs) h = (ground (arith, h.0), from_index e xs h.1)

IsSorted-IsSortedFrom :
    (n : ℕ) (es : List TickDataEvent)
    → AreAbove block_and_index (n, 0) es
    → IsSorted block_and_index es
    → IsSortedFrom n es
IsSorted-IsSortedFrom n [] h k = tt
IsSorted-IsSortedFrom n (e ∷ es) h k =
    (ground (arith, h.0), IsSorted-IsSortedFrom e.block_number es (from_index e es k.0) k.1)

above_zero : (es : List TickDataEvent) → AreAbove block_and_index (0, 0) es
above_zero [] = tt
above_zero (e ∷ es) = (ground arith, above_zero es)

abbrev Loads : ℕ → List Raw → Type 0
Loads line raws =
    ((rows : List TickDataEvent) × AreCast raws rows × (load_rows line raws ≡ ok rows))
    ⊎ ((i : ℕ) × (c : Column) × IsFirstBad raws i c
        × (load_rows line raws ≡ err (invalid_integer (line + i) c)))

Loads-next :
    (line : ℕ) (r : Raw) (rs : List Raw) (e : TickDataEvent)
    → cast_row r ≡ ok e
    → Loads (line + 1) rs
    → Loads line (r ∷ rs)
unfolding load_rows
Loads-next line r rs e h (inl (rows, a, k)) = inl (e ∷ rows, (h, a), rw (h, k) refl)
Loads-next line r rs e h (inr (i, c, b, k)) =
    let n : line + 1 + i ≡ line + suc i = omega arith in
    inr (suc i, c, ((e, h), b), rw (h, k) (ap (λ (m : ℕ). err (invalid_integer m c)) n))

load_rows-Loads : (line : ℕ) (raws : List Raw) → AreNatural raws → Loads line raws
unfolding load_rows
load_rows-Loads line [] natural = inl ([], tt, refl)
load_rows-Loads line (r ∷ rs) natural = elim (Outcome-cases (cast_row r)) [
  | inr (e, h) ↦ Loads-next line r rs e h (load_rows-Loads (line + 1) rs natural.1)
  | inl (BadRow.below_zero, h) ↦ absurd (cast_row-not_below r natural.0.0 natural.0.1 h)
  | inl (invalid c, h) ↦
      let n : line ≡ line + 0 = omega arith in
      inr (zero, c, h, rw h (ap (λ (m : ℕ). err (invalid_integer m c)) n))
]

-- Loading a fixture without an integer below zero either names the line and the column of the first row without an integer, all
-- rows before it being sound; or every row has its integers, and then the events are those of the
-- rows, sorted by block and log index, those of one block and one index in the file's order, and
-- the groups that are replayed from them are the blocks of the fixture, one after the other.
pub load_events_lem :
    (raws : List Raw)
    → AreNatural raws
    → ((i : ℕ) × (c : Column) × IsFirstBad raws i c
        × (load_events raws ≡ err (invalid_integer (2 + i) c)))
      ⊎ ((rows : List TickDataEvent) × (events : List TickDataEvent) × AreCast raws rows
          × (load_events raws ≡ ok events)
          × IsSorted block_and_index events
          × ((k : Key) → of_key block_and_index k events ≡ of_key block_and_index k rows)
          × (all_rows (iter_block_groups events) ≡ events)
          × AreBlocks (iter_block_groups events)
          × IsIncreasingFrom 0 (iter_block_groups events))
unfolding load_events
load_events_lem raws natural = elim (load_rows-Loads 2 raws natural) [
  | inr (i, c, b, h) ↦ inl (i, c, b, rw h refl)
  | inl (rows, a, h) ↦
      let events = sort block_and_index rows in
      let sorted = sort-IsSorted block_and_index rows in
      let (whole, blocks, increasing) =
        iter_block_groups_lem events (IsSorted-IsSortedFrom 0 events (above_zero events) sorted) in
      inr (
        rows,
        events,
        a,
        rw h refl,
        sorted,
        λ k. of_key-sort block_and_index k rows,
        whole,
        blocks,
        increasing,
      )
]
