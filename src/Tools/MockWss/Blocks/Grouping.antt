-- ===== src/Tools/MockWss/Blocks/Grouping.antt =====
-- The groups of a replay are the blocks of the fixture.
use ai_quantum.Common.{
  ℕ, ◌+◌, ◌==◌, ◌≤◌, ◌≡◌, refl, ◌∙◌, ap, List, [], ◌∷◌, ◌++◌, arith, Bool-cases, inl, inr,
  append_assoc,
}
use ai_quantum.Common.Text.{Text}
use ai_quantum.Ingestion.Event.{TickDataEvent}
use ai_quantum.Tools.MockWss.Blocks.{Group, groups_from, iter_block_groups}

abbrev pub all_rows : List Group → List TickDataEvent
all_rows [] = []
all_rows (g ∷ gs) = g.rows ++ all_rows gs

-- Every row is of the block.
abbrev pub AreOf : ℕ → List TickDataEvent → Type 0
AreOf n [] = Unit
AreOf n (e ∷ es) = (e.block_number ≡ n) × AreOf n es

abbrev pub AreBlocks : List Group → Type 0
AreBlocks [] = Unit
AreBlocks (g ∷ gs) = AreOf g.block_number g.rows × AreBlocks gs

-- The rows are sorted by block, from block `n` on.
abbrev pub IsSortedFrom : ℕ → List TickDataEvent → Type 0
IsSortedFrom n [] = Unit
IsSortedFrom n (e ∷ es) = (n ≤ e.block_number) × IsSortedFrom e.block_number es

-- The groups' blocks increase strictly, from block `n` on.
abbrev pub IsIncreasingFrom : ℕ → List Group → Type 0
IsIncreasingFrom n [] = Unit
IsIncreasingFrom n (g ∷ gs) = (n ≤ g.block_number) × IsIncreasingFrom (g.block_number + 1) gs

AreOf-append : (n : ℕ) (xs ys : List TickDataEvent) → AreOf n xs → AreOf n ys → AreOf n (xs ++ ys)
AreOf-append n [] ys h k = k
AreOf-append n (x ∷ xs) ys h k = (h.0, AreOf-append n xs ys h.1 k)

rows-groups_from :
    (n : ℕ) (ts : Text) (bucket rows : List TickDataEvent)
    → all_rows (groups_from n ts bucket rows) ≡ bucket ++ rows
unfolding groups_from
rows-groups_from n ts bucket [] = refl
rows-groups_from n ts bucket (row ∷ rows) = elim (Bool-cases (row.block_number == n)) [
  | inl same ↦
      rw same
        (rows-groups_from n ts (bucket ++ row ∷ []) rows ∙ append_assoc bucket (row ∷ []) rows)
  | inr next ↦ rw next (
      ap (λ (es : List TickDataEvent). bucket ++ es)
        (rows-groups_from row.block_number row.block_timestamp (row ∷ []) rows))
]

groups_from-AreBlocks :
    (n : ℕ) (ts : Text) (bucket rows : List TickDataEvent)
    → AreOf n bucket
    → AreBlocks (groups_from n ts bucket rows)
unfolding groups_from
groups_from-AreBlocks n ts bucket [] h = (h, tt)
groups_from-AreBlocks n ts bucket (row ∷ rows) h = elim (Bool-cases (row.block_number == n)) [
  | inl same ↦ rw same (
      groups_from-AreBlocks n ts (bucket ++ row ∷ []) rows
        (AreOf-append n bucket (row ∷ []) h (ground arith, tt)))
  | inr next ↦
      rw next
        (h, groups_from-AreBlocks row.block_number row.block_timestamp (row ∷ []) rows (refl, tt))
]

IsIncreasingFrom-le :
    (m n : ℕ) (gs : List Group) → m ≤ n → IsIncreasingFrom n gs → IsIncreasingFrom m gs
IsIncreasingFrom-le m n [] h k = tt
IsIncreasingFrom-le m n (g ∷ gs) h k = (omega (arith, k.0), k.1)

groups_from-IsIncreasingFrom :
    (n : ℕ) (ts : Text) (bucket rows : List TickDataEvent)
    → IsSortedFrom n rows
    → IsIncreasingFrom n (groups_from n ts bucket rows)
unfolding groups_from
groups_from-IsIncreasingFrom n ts bucket [] h = (omega arith, tt)
groups_from-IsIncreasingFrom n ts bucket (row ∷ rows) h =
    elim (Bool-cases (row.block_number == n)) [
      | inl same ↦
          let e : row.block_number ≡ n = ground arith in
          rw same (groups_from-IsIncreasingFrom n ts (bucket ++ row ∷ []) rows (rw e at h.1))
      | inr next ↦ rw next (
        omega arith,
        IsIncreasingFrom-le (n + 1) row.block_number
            (groups_from row.block_number row.block_timestamp (row ∷ []) rows) (ground (arith, h.0))
            (groups_from-IsIncreasingFrom row.block_number row.block_timestamp (row ∷ []) rows h.1),
      )
    ]

-- The groups of a sorted fixture are its blocks: together they hold its rows, in order, each row in
-- a group of its own block, and no two groups are of the same block: their numbers increase.
pub iter_block_groups_lem :
    (events : List TickDataEvent)
    → IsSortedFrom 0 events
    → (all_rows (iter_block_groups events) ≡ events)
      × AreBlocks (iter_block_groups events)
      × IsIncreasingFrom 0 (iter_block_groups events)
unfolding iter_block_groups
iter_block_groups_lem [] h = (refl, tt, tt)
iter_block_groups_lem (e ∷ es) h = (
  rows-groups_from e.block_number e.block_timestamp [] (e ∷ es),
  groups_from-AreBlocks e.block_number e.block_timestamp [] (e ∷ es) tt,
  IsIncreasingFrom-le 0 e.block_number (groups_from e.block_number e.block_timestamp [] (e ∷ es))
      (omega arith)
      (groups_from-IsIncreasingFrom e.block_number e.block_timestamp [] (e ∷ es)
        (omega arith, h.1)),
)
