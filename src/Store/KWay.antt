-- ===== src/Store/KWay.antt =====
-- The k-way merge of store/merge.go: one section of every input run, streamed into one table.
pub mod Order
pub mod Pull
pub mod Merged
use avalanche_s3_archival_no.Prelude.{ℕ, zero, suc, ◌+◌, ltb, if◌then◌else◌}
use avalanche_s3_archival_no.Prelude.{Bool, true, false, List, [], ◌∷◌, Option, none, some, length}
use avalanche_s3_archival_no.Prelude.Bytes.{Bytes, beq, blt}
use avalanche_s3_archival_no.Store.Run.{Row}

-- A cursor on a row of its input, with the rows behind it.
pub record Cursor : Type 0 where
  pub idx : ℕ
  pub row : Row
  pub rest : List Row

-- `Less`: by key, and of two cursors on one key the newer input first.
unfoldable pub less : Cursor → Cursor → Bool
less a b =
    if blt a.row.key b.row.key
    then true
    else if blt b.row.key a.row.key
    then false
    else ltb b.idx a.idx

-- `next`; a cursor that is used up goes.
unfoldable pub advance : Cursor → List Cursor → List Cursor
advance c cs = elim c.rest [ [] ↦ cs | r ∷ rs ↦ record c { row = r; rest = rs } ∷ cs ]

-- The top of the heap, and the cursors with that one moved on. container/heap keeps a least cursor at
-- the top; the list keeps the cursors in the order of their inputs, the newest first.
unfoldable pub pull_least : Cursor → List Cursor → Cursor × List Cursor
unfolding less advance
pull_least c [] = (c, advance c [])
pull_least c (d ∷ ds) =
    let (m, rest) = pull_least d ds in if less m c then (m, c ∷ rest) else (c, advance c (d ∷ ds))

unfoldable pub repeats : Option Bytes → Bytes → Bool
repeats none key = false
repeats (some last) key = beq last key

unfoldable pub merge_loop : ℕ → Option Bytes → List Cursor → List Row
unfolding pull_least repeats
merge_loop zero last cs = []
merge_loop (suc fuel) last [] = []
merge_loop (suc fuel) last (c ∷ cs) =
    let (m, moved) = pull_least c cs in
    let rest = merge_loop fuel (some m.row.key) moved in
    if repeats last m.row.key then rest else m.row ∷ rest

-- The cursors on the first rows of the inputs, the newest input first.
unfoldable pub first_cursors : List (List Row) → List Cursor
first_cursors [] = []
first_cursors ([] ∷ older) = first_cursors older
first_cursors ((r ∷ rs) ∷ older) =
    record { idx = length older; row = r; rest = rs } ∷ first_cursors older

abbrev pub rows_left : List Cursor → ℕ
rows_left [] = 0
rows_left (c ∷ cs) = suc (length c.rest) + rows_left cs

-- `mergeSection`: the rows that go to the writer.
unfoldable pub merge_section : List (List Row) → List Row
unfolding merge_loop first_cursors
merge_section inputs = merge_loop (rows_left (first_cursors inputs)) none (first_cursors inputs)
