-- ===== src/Store/Flat.antt =====
-- The flat latest-state cache of store/flat.go: state rows at the head, in two generations.
pub mod Truth
pub mod Budget
use avalanche_s3_archival_no.Prelude.{ℕ, ◌+◌, ◌-◌, ◌/◌, ◌%◌, ◌^◌, ltb, ◌==◌, if◌then◌else◌}
use avalanche_s3_archival_no.Prelude.{
  Bool, true, false, not, ◌&&◌, ◌||◌, Option, none, some, List, [], ◌∷◌,
}
use avalanche_s3_archival_no.Prelude.{length, add64, sub64}
use avalanche_s3_archival_no.Prelude.Bytes.{Bytes}
use avalanche_s3_archival_no.Prelude.Map.{Map, lookup, insert}
use avalanche_s3_archival_no.Store.Rows.{StateRow, TxWrite, BlockWrite, state_key_prefix}

pub record FlatVal : Type 0 where
  pub val : Bytes
  pub found : Bool

abbrev pub flat_entry_overhead : ℕ
flat_entry_overhead = 64

abbrev pub flat_entry_bytes : Bytes → FlatVal → ℕ
flat_entry_bytes k v = length k + length v.val + flat_entry_overhead

-- `cold` is nil before the first rotation, which reads as the empty map.
pub record FlatCache : Type 0 where
  pub budget : ℕ
  pub half : ℕ
  pub hot : Map FlatVal
  pub cold : Map FlatVal
  pub bytes : ℕ
  pub height : ℕ
  pub is_set : Bool

unfoldable pub new_flat_cache : ℕ → FlatCache
new_flat_cache budget = record {
  budget = budget;
  half = budget / 2;
  hot = [];
  cold = [];
  bytes = 0;
  height = 0;
  is_set = false;
}

unfoldable pub adopt : FlatCache → ℕ → FlatCache
adopt c height = if c.budget == 0 then c else record c { height = height; is_set = true }

abbrev pub miss : FlatVal × Bool
miss = (record { val = []; found = false }, false)

-- The row and whether it was a hit.
unfoldable pub get : FlatCache → Bytes → ℕ → FlatVal × Bool
get c prefix height =
    if c.budget == 0
    then miss
    else if not c.is_set || not (c.height == height)
    then miss
    else elim (lookup prefix c.hot) [
      | some e ↦ (e, true)
      | none ↦ elim (lookup prefix c.cold) [ some e ↦ (e, true) | none ↦ miss ]
    ]

-- `c.bytes -= flatEntryBytes(k, old)`, where there is an old entry
unfoldable pub without_old : FlatCache → Bytes → ℕ
without_old c k = elim (lookup k c.hot) [
  | some old ↦ sub64 c.bytes (flat_entry_bytes k old)
  | none ↦ c.bytes
]

unfoldable pub put : FlatCache → Bytes → FlatVal → FlatCache
unfolding without_old
put c k v =
    let hot = insert k v c.hot in
    let bytes = add64 (without_old c k) (flat_entry_bytes k v) in
    if ltb c.half bytes
    then record c { cold = hot; hot = []; bytes = 0 }
    else record c { hot = hot; bytes = bytes }

unfoldable pub fill : FlatCache → Bytes → Bytes → Bool → ℕ → FlatCache
fill c prefix val found height =
    if c.budget == 0
    then c
    else if not c.is_set || not (c.height == height)
    then c
    else put c prefix (record { val = val; found = found })

unfoldable pub put_rows : FlatCache → List StateRow → FlatCache
put_rows c [] = c
put_rows c (r ∷ rs) =
    put_rows (put c (state_key_prefix r) (record { val = r.val; found = true })) rs

unfoldable pub put_txs : FlatCache → List TxWrite → FlatCache
put_txs c [] = c
put_txs c (t ∷ ts) = put_txs (put_rows c t.state) ts

-- Not the next block: everything is dropped.
unfoldable pub drop_gap : FlatCache → ℕ → FlatCache
drop_gap c height =
    if c.is_set && not (height == add64 c.height 1)
    then record c { hot = []; cold = []; bytes = 0 }
    else c

unfoldable pub apply : FlatCache → BlockWrite → FlatCache
unfolding drop_gap put_txs put_rows
apply c b =
    if c.budget == 0
    then c
    else let c' = put_rows (put_txs (drop_gap c b.height) b.txs) b.tail in
      record c' { height = b.height; is_set = true }
