-- ===== src/Store/Memtable/Write.antt =====
-- `add`: one block into the window, and the rows of which it consists.
use avalanche_s3_archival_no.Prelude.{ℕ, ◌==◌, ltb, add64, if◌then◌else◌}
use avalanche_s3_archival_no.Prelude.{
  true, not, ◌&&◌, List, [], ◌∷◌, ◌++◌, Option, none, some, length, map,
}
use avalanche_s3_archival_no.Prelude.Bytes.{Bytes, be}
use avalanche_s3_archival_no.Prelude.Map.{Map, lookup}
use avalanche_s3_archival_no.Prelude.Fail.{◌>>=◌}
use avalanche_s3_archival_no.Store.Keys.{tx_hash_key, blk_hash_key, cid_key}
use avalanche_s3_archival_no.Store.Rows.{StateRow, LogWrite, TxWrite, BlockWrite, state_key_prefix}
use avalanche_s3_archival_no.Store.Rows.Entries.{tx_postings, sorted, log_sets}
use avalanche_s3_archival_no.Store.Container.{reassemble}
use avalanche_s3_archival_no.Store.Memtable.{
  Fam, blk, hdr, itx, pvm, rcpt, tx, row, state_rec, post_rec, num_rec, set_rec, code_rec, end_rec,
  Index, Memtable, write, body_at, put_state, add_chain, put_num, put_post, put_set, put_code,
  pad_chains,
}
use mathlib.Core.Option

abbrev pub with_index : Memtable → Index → Memtable
with_index m i = record m { idx = i }

unfoldable pub chain_row : Memtable → Fam → ℕ → Bytes → Option Memtable
chain_row m fam num val =
    Option.map (with_index (write m (row fam) num val))
      (add_chain m.idx fam num (body_at m) (length val))

unfoldable pub num_row : Memtable → Bytes → ℕ → Memtable
num_row m key num = with_index (write m num_rec num key) (put_num m.idx key num)

unfoldable pub post_row : Memtable → Bytes → ℕ → ℕ → Memtable
post_row m group txnum payload =
    with_index (write m post_rec txnum (payload ∷ group)) (put_post m.idx group txnum payload)

unfoldable pub state_row : Memtable → ℕ → StateRow → Memtable
state_row m n r =
    let k = state_key_prefix r in
    with_index (write m state_rec n (be 2 (length k) ++ (k ++ r.val))) (put_state m.idx k n r.val)

-- A code blob, and a set row, is written once in a window.
unfoldable pub code_row : Memtable → Bytes → Bytes → Memtable
code_row m hash blob = elim (lookup hash m.idx.code) [
  | some old ↦ m
  | none ↦ with_index (write m code_rec 0 (hash ++ blob)) (put_code m.idx hash blob)
]

unfoldable pub set_row : Memtable → ℕ → Bytes → Memtable
set_row m n k = elim (lookup k m.idx.sets) [
  | some old ↦ m
  | none ↦ with_index (write m set_rec n k) (put_set m.idx k)
]

unfoldable pub code_rows : Memtable → List (Bytes × Bytes) → Memtable
code_rows m [] = m
code_rows m ((h, blob) ∷ code) = code_rows (code_row m h blob) code

unfoldable pub post_rows : Memtable → ℕ → Map ℕ → Memtable
post_rows m n [] = m
post_rows m n ((g, p) ∷ ps) = post_rows (post_row m g n p) n ps

unfoldable pub set_rows : Memtable → ℕ → List Bytes → Memtable
set_rows m n [] = m
set_rows m n (k ∷ ks) = set_rows (set_row m n k) n ks

unfoldable pub log_rows : Memtable → ℕ → List LogWrite → Memtable
log_rows m n [] = m
log_rows m n (l ∷ ls) = log_rows (set_rows m n (log_sets l.emitter l.topics)) n ls

unfoldable pub state_rows : Memtable → ℕ → List StateRow → Memtable
state_rows m n [] = m
state_rows m n (r ∷ rs) = state_rows (state_row m n r) n rs

-- The index entries and state rows of a transaction.
unfoldable pub entry_rows : Memtable → ℕ → TxWrite → Memtable
entry_rows m n t =
    let a = num_row m (tx_hash_key t.hash) n in
    let b = post_rows a n (sorted (tx_postings t)) in state_rows (log_rows b n t.logs) n t.state

unfoldable pub tx_row : Memtable → ℕ → TxWrite → Option Memtable
tx_row m n t = do
  a ← chain_row m itx n t.frames
  b ← chain_row a rcpt n t.receipt
  c ← chain_row b tx n t.rlp
  some (entry_rows c n t)

unfoldable pub tx_rows : Memtable → ℕ → List TxWrite → Option Memtable
tx_rows m n [] = some m
tx_rows m n (t ∷ ts) = tx_row m n t >>= λ a. tx_rows a (add64 n 1) ts

abbrev pub tx_rlp : TxWrite → Bytes
tx_rlp t = t.rlp

-- A fresh window starts where the sealed runs end; only the empty store's first block may jump.
-- `none` is the error of a hole.
unfoldable pub start_window : Memtable → ℕ → Option Memtable
start_window m height =
    if m.started
    then some m
    else if not (m.next_height == 0) && not (height == m.next_height)
    then none
    else some (record m { base_height = height; next_height = height; started = true })

-- The end of a block: the tx-keyed families parked, the next slot and height, the end record.
unfoldable pub end_block : Memtable → ℕ → ℕ → Memtable
end_block m height tail_at =
    let next = add64 tail_at 1 in
    record (write m end_rec height (be 8 next)) {
      idx = pad_chains m.idx next;
      next_tx = next;
      next_height = add64 height 1;
    }

-- keccak256 and sha256 are libraries, and so is the RLP encoder of the bare block.
module _ (keccak sha : Bytes → Bytes) (bare : Bytes → List Bytes → Option Bytes) where
  -- The rows of one block into a started window.
  unfoldable pub block_body : Memtable → BlockWrite → Option Memtable
  block_body m b = do
    let first = m.next_tx
    a ← chain_row m blk b.height (be 8 first ++ be 4 (length b.txs))
    c ← chain_row a hdr b.height b.header_rlp
    d ← chain_row c pvm b.height b.pvm
    container ← reassemble bare b.pvm b.header_rlp (map tx_rlp b.txs)
    let e = num_row d (blk_hash_key (keccak b.header_rlp)) b.height
    let f = code_rows (num_row e (cid_key (sha container)) b.height) b.code
    g ← tx_rows f first b.txs
    let tail_at = add64 first (length b.txs)
    some (end_block (state_rows g tail_at b.tail) b.height tail_at)

  -- `add`. A block that the store already holds is skipped; `none` is an error.
  unfoldable pub add_block : Memtable → BlockWrite → Option Memtable
  add_block m b =
      if ltb b.height m.next_height
      then some m
      else (start_window m b.height >>= λ s.
          if not (b.height == s.next_height) then none else block_body s b)

  -- The blocks of one run of the executor, one `add` after the other.
  unfoldable pub add_blocks : Memtable → List BlockWrite → Option Memtable
  add_blocks m [] = some m
  add_blocks m (b ∷ bs) = add_block m b >>= λ k. add_blocks k bs
