-- ===== src/Store/Memtable/Read.antt =====
-- The reads of the window: a chain row out of the log, the latest state row, the lookups.
pub mod Back
use avalanche_s3_archival_no.Prelude.{
  ℕ, ◌+◌, ◌==◌, leb, ltb, if◌then◌else◌, Option, none, some, List, [], ◌∷◌, length,
}
use avalanche_s3_archival_no.Prelude.Bytes.{Bytes}
use avalanche_s3_archival_no.Prelude.Map.{lookup}
use avalanche_s3_archival_no.Store.Container.{slice}
use avalanche_s3_archival_no.Store.Window.{find}
use avalanche_s3_archival_no.Store.Memtable.{Fam, chain_at, Index, Memtable, MemVal, history}

-- `readRow` at an offset that was found; `none` is the error of a short read.
unfoldable pub read_row : Bytes → ℕ → ℕ → Option Bytes
read_row log off n =
    if n == 0
    then some []
    else if ltb (length log) (off + n)
    then none
    else some (slice log off (off + n))

-- `chainGet` on a log that is open: `none` is an error, `some none` is no row.
unfoldable pub chain_get : Memtable → Fam → ℕ → Option (Option Bytes)
unfolding read_row
chain_get m fam num = elim (find (chain_at fam m.idx.chains) num) [
  | none ↦ some none
  | some (off, n) ↦ elim (read_row m.log off n) [ none ↦ none | some row ↦ some (some row) ]
]

-- The search in `latestState`: the row before the first one above the position. sort.Search finds
-- that one by bisection on a history in ascending order.
unfoldable pub last_at : List MemVal → ℕ → Option MemVal
last_at [] at = none
last_at (e ∷ h) at =
    let rest = last_at h at in
    if leb e.txnum at then elim rest [ none ↦ some e | some f ↦ some f ] else none

unfoldable pub latest_state : Index → Bytes → ℕ → Option MemVal
unfolding last_at
latest_state i prefix at = last_at (history prefix i.state) at

unfoldable pub code_blob : Index → Bytes → Option Bytes
code_blob i hash = lookup hash i.code

unfoldable pub lookup_num : Index → Bytes → Option ℕ
lookup_num i key = lookup key i.nums
