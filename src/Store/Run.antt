-- ===== src/Store/Run.antt =====
-- The point reads of a run (store/run.go): its three sections as tables of rows in byte order.
pub mod Order
pub mod Newest
use avalanche_s3_archival_no.Prelude.{ℕ, ◌+◌, ◌==◌, add64, if◌then◌else◌}
use avalanche_s3_archival_no.Prelude.{
  Bool, true, false, not, ◌&&◌, ◌||◌, List, [], ◌∷◌, Option, none, some, length, take,
}
use avalanche_s3_archival_no.Prelude.Bytes.{Bytes, beq, blt}
use avalanche_s3_archival_no.Store.Keys.{suffixed, txnum_of}
use avalanche_s3_archival_no.Store.Manifest.{RunRef}
use avalanche_s3_archival_no.Store.Memtable.{MemVal}

pub data Section : Type 0 where
  chain_section state_section lookup_section : Section

pub record Row : Type 0 where
  pub key : Bytes
  pub val : Bytes

-- `ref` has what the reads use of the footer.
pub record Run : Type 0 where
  pub ref : RunRef
  pub rows : Section → List Row

-- What the sstable iterator answers on rows in order: the first row at or above a key, and the last
-- one below it.
unfoldable pub seek_ge : Bytes → List Row → Option Row
seek_ge key [] = none
seek_ge key (r ∷ rs) = let rest = seek_ge key rs in if blt r.key key then rest else some r

unfoldable pub seek_lt : Bytes → List Row → Option Row
seek_lt key [] = none
seek_lt key (r ∷ rs) =
    let rest = seek_lt key rs in
    if blt r.key key then elim rest [ none ↦ some r | some later ↦ some later ] else none

-- `may_have` is the bloom gate of a section.
module _ (may_have : Run → Section → Bytes → Bool) where
  unfoldable pub get_row : Run → Section → Bytes → Option Bytes
  unfolding seek_ge
  get_row r s key = if not (may_have r s key) then none else elim (seek_ge key (r.rows s)) [
    | none ↦ none
    | some kv ↦ if beq kv.key key then some kv.val else none
  ]

  -- The newest row under a prefix at or below a TxNum.
  unfoldable pub latest : Run → Section → Bytes → ℕ → Option MemVal
  unfolding seek_lt
  latest r s prefix at =
      if not (may_have r s (suffixed prefix 0))
      then none
      else elim (seek_lt (suffixed prefix (add64 at 1)) (r.rows s)) [
        | none ↦ none
        | some kv ↦
            if not (length kv.key == length prefix + 8)
              || not (beq (take (length prefix) kv.key) prefix)
            then none
            else elim (txnum_of kv.key) [
              | none ↦ none
              | some n ↦ some (record { txnum = n; val = kv.val })
            ]
      ]
