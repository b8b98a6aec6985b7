-- ===== src/Store/Rows.antt =====
-- What one block contributes to the store (store/mem.go): its rows as the executor hands them over,
-- the key of a state row, and the index entries of a transaction.
pub mod Columns
pub mod Entries
use avalanche_s3_archival_no.Prelude.{ℕ, ◌==◌, if◌then◌else◌, List, [], ◌∷◌, Option}
use avalanche_s3_archival_no.Prelude.Bytes.{Bytes}
use avalanche_s3_archival_no.Store.Keys.{account_prefix, code_ref_prefix, slot_prefix}

-- One post-transaction state write; `kind` is the byte 'a', 'c' or 's'.
pub record StateRow : Type 0 where
  pub kind : ℕ
  pub addr : Bytes
  pub slot : Bytes
  pub val : Bytes

unfoldable pub state_key_prefix : StateRow → Bytes
state_key_prefix r =
    if r.kind == b'a'
    then account_prefix r.addr
    else if r.kind == b'c'
    then code_ref_prefix r.addr
    else slot_prefix r.addr r.slot

pub record LogWrite : Type 0 where
  pub emitter : Bytes
  pub topics : List Bytes

-- `to` and `created` are nil where the transaction has none.
pub record TxWrite : Type 0 where
  pub hash : Bytes
  pub rlp : Bytes
  pub receipt : Bytes
  pub frames : Bytes
  pub frame_addrs : List Bytes
  pub state : List StateRow
  pub sender : Bytes
  pub to : Bytes
  pub created : Bytes
  pub logs : List LogWrite

-- `code` lists the map's entries in the order in which the loop meets them.
pub record BlockWrite : Type 0 where
  pub height : ℕ
  pub header_rlp : Bytes
  pub pvm : Bytes
  pub txs : List TxWrite
  pub code : List (Bytes × Bytes)
  pub tail : List StateRow
