-- ===== src/Tools/MockWss/Blocks.antt =====
-- `iter_block_groups` of tools/mock_wss/replay.py.
pub mod Grouping
use ai_quantum.Common.{ℕ, ◌==◌, List, [], ◌∷◌, ◌++◌, if◌then◌else◌}
use ai_quantum.Common.Text.{Text}
use ai_quantum.Ingestion.Event.{TickDataEvent}

-- What the generator yields.
pub record Group : Type 0 where
  pub block_number : ℕ
  pub block_timestamp : Text
  pub rows : List TickDataEvent

-- The loop, with its current block, timestamp and bucket.
unfoldable pub groups_from : ℕ → Text → List TickDataEvent → List TickDataEvent → List Group
groups_from cur_block cur_ts bucket [] =
    record { block_number = cur_block; block_timestamp = cur_ts; rows = bucket } ∷ []
groups_from cur_block cur_ts bucket (row ∷ rows) =
    let same = groups_from cur_block cur_ts (bucket ++ row ∷ []) rows in
    let next = groups_from row.block_number row.block_timestamp (row ∷ []) rows in
    if row.block_number == cur_block
    then same
    else record { block_number = cur_block; block_timestamp = cur_ts; rows = bucket } ∷ next

unfoldable pub iter_block_groups : List TickDataEvent → List Group
unfolding groups_from
iter_block_groups [] = []
iter_block_groups (e ∷ es) = groups_from e.block_number e.block_timestamp [] (e ∷ es)
