-- ===== src/Tools/MockWss/Fixture/Tests.antt =====
-- A fixture of three rows, out of order.
use ai_quantum.Common.{ℕ, ◌+◌, ◌≡◌, ◌⊎◌, refl, List, [], ◌∷◌, Option, none, some, ok, err}
use ai_quantum.Common.Text.{Text, codes}
use ai_quantum.Common.Text.Number.{int_of, read_from}
use ai_quantum.Common.Sorting.{Key, IsSorted, of_key}
use ai_quantum.Ingestion.Event.{TickDataEvent}
use ai_quantum.Tools.MockWss.Fixture.{
  Raw, Column, to_int, log_index, invalid_integer, load_events, block_and_index,
}
use ai_quantum.Tools.MockWss.Fixture.Loaded.{AreCast, AreNatural, IsFirstBad, load_events_lem}
use ai_quantum.Tools.MockWss.Blocks.{iter_block_groups}
use ai_quantum.Tools.MockWss.Blocks.Grouping.{all_rows, AreBlocks, IsIncreasingFrom}

abbrev at_block : Text → Option Text → Raw
at_block n i = record {
  block_number = some n;
  log_index = i;
  block_timestamp = codes "2023-03-11T00:00:00Z";
  protocol = codes "aave_v3";
  event_type = codes "supply";
  pool_address = codes "0xab";
  token0 = codes "0xc0";
  token1 = codes "0x00";
  amount0 = codes "5";
  amount1 = codes "0";
  tx_hash = codes "0xdd";
}

abbrev raws : List Raw
raws =
    at_block (codes "19") (some (codes "1"))
    ∷ at_block (codes "17") (some (codes "4"))
    ∷ at_block (codes "17") (some (codes "2"))
    ∷ []

names_the_line :
    load_events (at_block (codes "19") (some (codes "1")) ∷ at_block (codes "17") none ∷ [])
    ≡ err (invalid_integer 3 log_index)
unfolding load_events int_of read_from
names_the_line = refl

naturals : AreNatural raws
unfolding to_int int_of read_from
naturals = ((refl, refl), ((refl, refl), ((refl, refl), tt)))

load_events_lem_example :
    ((i : ℕ) × (c : Column) × IsFirstBad raws i c
      × (load_events raws ≡ err (invalid_integer (2 + i) c)))
    ⊎ ((rows : List TickDataEvent) × (events : List TickDataEvent) × AreCast raws rows
        × (load_events raws ≡ ok events)
        × IsSorted block_and_index events
        × ((k : Key) → of_key block_and_index k events ≡ of_key block_and_index k rows)
        × (all_rows (iter_block_groups events) ≡ events)
        × AreBlocks (iter_block_groups events)
        × IsIncreasingFrom 0 (iter_block_groups events))
load_events_lem_example = load_events_lem raws naturals
