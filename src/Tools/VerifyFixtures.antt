-- ===== src/Tools/VerifyFixtures.antt =====
-- tools/verify_fixtures.py: the quality gate of a fixture and its check against the chain. The
-- schema, the sample and the API are parameters; messages and pauses are left out.

pub mod Counting
pub mod Quality
pub mod Main
pub mod OnChain
mod Tests
use ai_quantum.Common.{
  ℕ, ◌+◌, ltb, leb, ◌==◌, Bool, true, false, ◌&&◌, ◌||◌, not, if◌then◌else◌, List, [], ◌∷◌, length,
  Option, none, some, Outcome, ok, err, ◌>>=◌, ◌≡◌, ◌↔◌, refl, arith,
}
use ai_quantum.Common.Int.{ℤ, pos, negsuc, ltb_ℤ}
use ai_quantum.Common.Text.{Text, codes, text_eq, text_eq_iff, lower}
use ai_quantum.Common.Eq.{Eq, text_eq_instance}
use ai_quantum.Common.Set.{contains, add}
use ai_quantum.Ingestion.Event.{TickDataEvent}
use ai_quantum.Tools.MockWss.Fixture.{Raw, BadRow, cast_row}

-- A row's key: its transaction and the log's place in it.
abbrev pub RowKey : Type 0
RowKey = Text × ℕ

abbrev pub key : TickDataEvent → RowKey
key r = (r.tx_hash, r.log_index)

unfoldable pub key_eq : RowKey → RowKey → Bool
key_eq (s, i) (t, j) = text_eq s t && i == j

pub key_eq_iff : (k l : RowKey) → (key_eq k l ≡ true) ↔ (k ≡ l)
unfolding key_eq
key_eq_iff (s, i) (t, j) =
    (λ h. ground (arith, text_eq_iff s t, h), λ h. ground (arith, text_eq_iff s t, h))

instance abbrev pub key_instance : Eq RowKey
key_instance = record { are_same = key_eq; are_same_iff = key_eq_iff }

-- Why a row is refused.
pub data RowFault : Type 0 where
  schema_violation out_of_order duplicate_key empty_amount0 empty_amount1 : RowFault

-- What is raised: `ValueError` on an integer, or an `AssertionError`.
pub data VerifyError : Type 0 where
  invalid_integer : ℕ → BadRow → VerifyError
  bad_row : ℕ → RowFault → VerifyError
  few_rows : ℕ → VerifyError
  few_event_types : ℕ → VerifyError

-- `val in ("", "NaN", "nan", None) or val.lower() == "nan"`.
unfoldable pub is_missing : Text → Bool
is_missing val =
    text_eq val []
    || text_eq val (codes "NaN")
    || text_eq val (codes "nan")
    || text_eq (lower val) (codes "nan")

module _ (valid : TickDataEvent → Bool) where
  -- One turn of the loop, up to the additions.
  unfoldable pub check_row : ℤ → List RowKey → TickDataEvent → Option RowFault
  check_row prev_block seen_keys row =
      if not (valid row)
      then some schema_violation
      else if ltb_ℤ (pos row.block_number) prev_block
      then some out_of_order
      else if contains (key row) seen_keys
      then some duplicate_key
      else if is_missing row.amount0
      then some empty_amount0
      else if is_missing row.amount1
      then some empty_amount1
      else none

  abbrev pub Checked : Type 0
  Checked = Outcome VerifyError (List TickDataEvent × List Text)

  abbrev pub keep : TickDataEvent → Checked → Checked
  keep row (err e) = err e
  keep row (ok (rows, types)) = ok (row ∷ rows, types)

  abbrev pub unless : ℕ → Option RowFault → Checked → Checked
  unless idx (some fault) rest = err (bad_row idx fault)
  unless idx none rest = rest

  -- The loop from row `idx` on: the rows, and the event types seen at the end.
  unfoldable pub check_rows : ℤ → List RowKey → List Text → ℕ → List Raw → Checked
  unfolding check_row
  check_rows prev seen types idx [] = ok ([], types)
  check_rows prev seen types idx (raw ∷ raws) = elim (cast_row raw) [
    | err column ↦ err (invalid_integer idx column)
    | ok row ↦ unless idx (check_row prev seen row) (
        keep row (
          check_rows (pos row.block_number) (add (key row) seen) (add row.event_type types)
            (idx + 1) raws))
  ]

  abbrev pub enough : List TickDataEvent × List Text → Outcome VerifyError (List TickDataEvent)
  enough (rows, types) =
      if ltb (length rows) 1000
      then err (few_rows (length rows))
      else if ltb (length types) 3
      then err (few_event_types (length types))
      else ok rows

  -- `_verify_file`.
  unfoldable pub verify_file : List Raw → Outcome VerifyError (List TickDataEvent)
  unfolding check_rows
  verify_file raws = check_rows (negsuc 0) [] [] 0 raws >>= enough
